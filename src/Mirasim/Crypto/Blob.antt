-- ===== src/Mirasim/Crypto/Blob.antt =====
-- What is encrypted comes back, and nothing else is decrypted.
use mirasim2api.Base.{
  ℕ, ◌+◌, ◌-◌, ◌≤◌, ◌≡◌, refl, sym, ap, ◌∙◌, false, none, some, [], ◌++◌, ◌⊎◌, inl, inr, Str, arith,
  length, take, drop, length-append, length-take, take-append, drop-append, take-drop, append_assoc,
  length-drop, ltb, Option-cases,
}
use mirasim2api.Base.Text.{cut_prefix, cut_prefix-append, cut_prefix-inv}
use mirasim2api.Mirasim.Crypto.{
  Aead, Primitives, not_authentic, plain, mrs1_prefix, encrypt_mrs1, decrypt_mrs1, open_mrs1,
}

-- What `cipher.AEAD` documents: Open undoes Seal, and a sealed text is longer by the overhead.
pub record IsSound (a : Aead) : Type 0 where
  pub unseal_seal :
      (nonce plaintext additional : Str)
      → length nonce ≡ a.nonce_size
      → a.unseal nonce (a.seal nonce plaintext additional) additional ≡ some plaintext
  pub length_seal :
      (nonce plaintext additional : Str)
      → length (a.seal nonce plaintext additional) ≡ length plaintext + a.overhead

-- The three parts, put together, are cut apart again.
open_mrs1-parts :
    (gcm : Aead) (iv tag ct : Str)
    → length iv ≡ gcm.nonce_size
    → length tag ≡ gcm.overhead
    → open_mrs1 gcm (iv ++ tag ++ ct)
      ≡ (elim (gcm.unseal iv (ct ++ tag) []) [ none ↦ not_authentic | some pt ↦ plain pt ])
unfolding open_mrs1
open_mrs1-parts gcm iv tag ct hi ht =
    let long : ltb (length (iv ++ (tag ++ ct))) (length iv + length tag) ≡ false =
      ground (arith, length-append iv (tag ++ ct), length-append tag ct) in
    rw
      (
        open_mrs1,
        append_assoc iv tag ct,
        ← hi,
        ← ht,
        long,
        take-append iv (tag ++ ct),
        drop-append iv (tag ++ ct),
        take-append tag ct,
        drop-append tag ct,
      )
      refl

-- Where the base64 coding decodes what it encodes, the key makes a sound cipher and the iv has the
-- cipher's length, encryption gives a blob that decrypts to the plaintext under the same key.
pub decrypt-encrypt_mrs1 :
    (lib : Primitives) (iv plaintext key : Str) (gcm : Aead)
    → ((s : Str) → lib.std_decode (lib.std_encode s) ≡ some s)
    → lib.aes_gcm key ≡ some gcm
    → IsSound gcm
    → length iv ≡ gcm.nonce_size
    → (blob : Str) × (encrypt_mrs1 lib iv plaintext key ≡ some blob)
      × (decrypt_mrs1 lib blob key ≡ plain plaintext)
unfolding encrypt_mrs1 decrypt_mrs1
decrypt-encrypt_mrs1 lib iv plaintext key gcm decodes made sound hi =
    let sealed = gcm.seal iv plaintext [] in
    let n = length sealed - gcm.overhead in
    let ct = take n sealed in
    let tag = drop n sealed in
    let ht : length tag ≡ gcm.overhead =
      omega (arith, length-drop n sealed, sound.length_seal iv plaintext []) in
    let blob = mrs1_prefix ++ lib.std_encode (iv ++ tag ++ ct) in
    (
      blob,
      rw (encrypt_mrs1, made) refl,
      rw
          (
            decrypt_mrs1,
            cut_prefix-append mrs1_prefix (lib.std_encode (iv ++ tag ++ ct)),
            decodes (iv ++ tag ++ ct),
            made,
            open_mrs1-parts gcm iv tag ct hi ht,
            take-drop n sealed,
            sound.unseal_seal iv plaintext [] hi,
          )
          refl,
    )

open_mrs1-inv :
    (gcm : Aead) (raw p : Str)
    → open_mrs1 gcm raw ≡ plain p
    → (gcm.nonce_size + gcm.overhead ≤ length raw)
      × (gcm.unseal
            (take gcm.nonce_size raw)
            (drop gcm.overhead (drop gcm.nonce_size raw)
              ++ take gcm.overhead (drop gcm.nonce_size raw))
            []
          ≡ some p)
unfolding open_mrs1
open_mrs1-inv gcm raw p h = ground arith

parts : (n m : ℕ) (raw : Str) → take n raw ++ take m (drop n raw) ++ drop m (drop n raw) ≡ raw
parts n m raw =
    append_assoc (take n raw) (take m (drop n raw)) (drop m (drop n raw))
    ∙ ap (λ l. take n raw ++ l) (take-drop m (drop n raw))
    ∙ take-drop n raw

-- A blob that decrypts is either a text without the prefix, which comes back as it is, or the prefix
-- before the coding of an iv, a tag and a cipher text, of which the cipher accepts the tag.
pub decrypt_mrs1_authentic :
    (lib : Primitives) (blob key p : Str)
    → decrypt_mrs1 lib blob key ≡ plain p
    → ((cut_prefix mrs1_prefix blob ≡ none) × (p ≡ blob))
      ⊎ ((coded : Str) × (gcm : Aead) × (iv : Str) × (tag : Str) × (ct : Str) × (blob
            ≡ mrs1_prefix ++ coded)
          × (lib.std_decode coded ≡ some (iv ++ tag ++ ct))
          × (lib.aes_gcm key ≡ some gcm)
          × (length iv ≡ gcm.nonce_size)
          × (length tag ≡ gcm.overhead)
          × (gcm.unseal iv (ct ++ tag) [] ≡ some p))
unfolding decrypt_mrs1
decrypt_mrs1_authentic lib blob key p h = elim (Option-cases (cut_prefix mrs1_prefix blob)) [
  | inl e ↦ inl (e, ground arith)
  | inr (coded, e) ↦ elim (Option-cases (lib.std_decode coded)) [
    | inl d ↦ absurd (ground arith)
    | inr (raw, d) ↦ elim (Option-cases (lib.aes_gcm key)) [
      | inl g ↦ absurd (ground arith)
      | inr (gcm, g) ↦
          let (long, opened) = open_mrs1-inv gcm raw p (ground arith) in
          let whole = parts gcm.nonce_size gcm.overhead raw in
          inr (
            coded,
            gcm,
            take gcm.nonce_size raw,
            take gcm.overhead (drop gcm.nonce_size raw),
            drop gcm.overhead (drop gcm.nonce_size raw),
            cut_prefix-inv mrs1_prefix blob coded e,
            d ∙ ap some (sym whole),
            g,
            omega (arith, length-take gcm.nonce_size raw),
            omega (
              arith,
              length-take gcm.overhead (drop gcm.nonce_size raw),
              length-drop gcm.nonce_size raw,
            ),
            opened,
          )
    ]
  ]
]
