-- ===== src/Admin/Keys/Patch.antt =====
-- A patch is one change of one key.
use mirasim2api.Base.{
  ℕ, ◌≡◌, refl, ap, ◌∙◌, Bool, true, false, Option, none, some, List, [], ◌∷◌, Str, arith, ◌==◌,
  Option-cases, Bool-cases, inl, inr, text_key,
}
use mirasim2api.Base.Int.{ℤ, pos, pos_part}
use mirasim2api.Store.Rows.{ApiKey}
use mirasim2api.Store.Database.{KeyRow, Database, update_where}
use mirasim2api.Store.Keys.{KeyUpdate, is_key, on_key, set_given, update_rows, update_api_key}
use mirasim2api.Admin.Access.{KeyEdit, validate}
use mirasim2api.Admin.Keys.{done, given, limit_of, update_of, handle_key_patch}

-- A later time replaces an earlier one; none leaves it.
abbrev pub later : Option ℤ → Option ℤ → Option ℤ
later none old = old
later (some t) old = some t

module _ {R : Type 0} where
  -- The key with the fields that are given, all others as they were.
  abbrev pub updated : KeyUpdate → ApiKey R → ApiKey R
  updated u k = record k {
    enabled = given u.enabled k.enabled;
    concurrency = given u.concurrency k.concurrency;
    rate_limit_rpm = given u.rate_limit_rpm k.rate_limit_rpm;
    model_allowlist = given u.model_allowlist k.model_allowlist;
    expires_at = later u.expires_at k.expires_at;
  }

  -- `whole` is what a field that may be given does to a key.
  abbrev IsStep :
      {A : Type 0} → Option A → (A → ApiKey R → ApiKey R) → (ApiKey R → ApiKey R) → Type 0
  IsStep none change whole = (k : ApiKey R) → whole k ≡ k
  IsStep (some a) change whole = (k : ApiKey R) → whole k ≡ change a k

  update_where-fused :
      (id : Str) (f g h : ApiKey R → ApiKey R) (rows : List (KeyRow R))
      → ((k : ApiKey R) → (f k).id ≡ k.id)
      → ((k : ApiKey R) → h k ≡ g (f k))
      → update_where (is_key id) (on_key g) (update_where (is_key id) (on_key f) rows)
        ≡ update_where (is_key id) (on_key h) rows
  update_where-fused id f g h [] keeps same = refl
  update_where-fused id f g h (x ∷ rows) keeps same =
      let rest = update_where-fused id f g h rows keeps same in
      elim (Bool-cases (is_key id x)) [
        | inl e ↦
            let still : ((f x.key).id == id) ≡ true = ap (λ i. i == id) (keeps x.key) ∙ e in
            rw (e, still, rest, same x.key) refl
        | inr e ↦ rw (e, e, rest) refl
      ]

  update_where-same :
      (id : Str) (f h : ApiKey R → ApiKey R) (rows : List (KeyRow R))
      → ((k : ApiKey R) → h k ≡ f k)
      → update_where (is_key id) (on_key f) rows ≡ update_where (is_key id) (on_key h) rows
  update_where-same id f h [] same = refl
  update_where-same id f h (x ∷ rows) same =
      rw (update_where-same id f h rows same, same x.key) refl

  update_where-id :
      (id : Str) (rows : List (KeyRow R)) → rows ≡ update_where (is_key id) (on_key (λ k. k)) rows
  update_where-id id [] = refl
  update_where-id id (x ∷ rows) =
      let rest = update_where-id id rows in
      elim (Bool-cases (is_key id x)) [
        | inl e ↦ rw e (ap (λ l. x ∷ l) rest)
        | inr e ↦ rw e (ap (λ l. x ∷ l) rest)
      ]

  -- One statement after those that amount to `f`.
  set_given_lem :
      {A : Type 0} (up : Bool) (g : Option A) (change : A → ApiKey R → ApiKey R) (id : Str)
      (f whole h : ApiKey R → ApiKey R) (before : List (KeyRow R) × Bool) (rows : List (KeyRow R))
      → IsStep g change whole
      → ((k : ApiKey R) → (f k).id ≡ k.id)
      → ((k : ApiKey R) → h k ≡ whole (f k))
      → (before.1 ≡ true → before.0 ≡ update_where (is_key id) (on_key f) rows)
      → (set_given up g change id before).1 ≡ true
      → (set_given up g change id before).0 ≡ update_where (is_key id) (on_key h) rows
  unfolding set_given
  set_given_lem up none change id f whole h before rows step keeps same old went =
      old went ∙ update_where-same id f h rows (λ k. same k ∙ step (f k))
  set_given_lem up (some a) change id f whole h (now, false) rows step keeps same old went =
      absurd (cc)
  set_given_lem false (some a) change id f whole h (now, true) rows step keeps same old went =
      absurd (cc)
  set_given_lem true (some a) change id f whole h (now, true) rows step keeps same old went =
      ap (update_where (is_key id) (on_key (change a))) (old refl)
      ∙ update_where-fused id f (change a) h rows keeps (λ k. same k ∙ step (f k))

  given-IsStep :
      {A : Type 0} (g : Option A) (change : A → ApiKey R → ApiKey R) (read : ApiKey R → A)
      → ((k : ApiKey R) → change (read k) k ≡ k)
      → IsStep g change (λ k. change (given g (read k)) k)
  given-IsStep none change read h = h
  given-IsStep (some a) change read h = λ k. refl

limit_lem : (g : Option ℤ) (n : ℕ) → pos_part (given g (pos n)) ≡ given (limit_of g) n
limit_lem none n = refl
limit_lem (some z) n = refl

expiry-IsStep :
    (R : Type 0) (g : Option ℤ)
    → IsStep {R = R} g
        (λ t k. record k { expires_at = some t })
        (λ k. record k { expires_at = later g k.expires_at })
expiry-IsStep R none = λ k. refl
expiry-IsStep R (some t) = λ k. refl

module _ {R : Type 0} where
  -- The five statements are one.
  update_rows_lem :
      (up : ℕ → Bool) (id : Str) (u : KeyUpdate) (rows : List (KeyRow R))
      → (update_rows up id u rows).1 ≡ true
      → (update_rows up id u rows).0 ≡ update_where (is_key id) (on_key (updated u)) rows
  unfolding update_rows
  update_rows_lem up id u rows =
      let f1 : ApiKey R → ApiKey R = λ k. record k { enabled = given u.enabled k.enabled } in
      let f2 : ApiKey R → ApiKey R =
        λ k. record k { concurrency = given u.concurrency k.concurrency } in
      let f3 : ApiKey R → ApiKey R =
        λ k. record k { rate_limit_rpm = given u.rate_limit_rpm k.rate_limit_rpm } in
      let f4 : ApiKey R → ApiKey R =
        λ k. record k { model_allowlist = given u.model_allowlist k.model_allowlist } in
      let f5 : ApiKey R → ApiKey R =
        λ k. record k { expires_at = later u.expires_at k.expires_at } in
      set_given_lem (up 4) u.expires_at _ id (λ k. f4 (f3 (f2 (f1 k)))) f5 (updated u) _ rows
        (expiry-IsStep R u.expires_at) (λ k. refl) (λ k. refl)
        (set_given_lem (up 3) u.model_allowlist _ id (λ k. f3 (f2 (f1 k))) f4
          (λ k. f4 (f3 (f2 (f1 k)))) _ rows
          (given-IsStep u.model_allowlist _ (λ k. k.model_allowlist) (λ k. refl)) (λ k. refl)
          (λ k. refl)
          (set_given_lem (up 2) u.rate_limit_rpm _ id (λ k. f2 (f1 k)) f3 (λ k. f3 (f2 (f1 k))) _
            rows (given-IsStep u.rate_limit_rpm _ (λ k. k.rate_limit_rpm) (λ k. refl)) (λ k. refl)
            (λ k. refl)
            (set_given_lem (up 1) u.concurrency _ id f1 f2 (λ k. f2 (f1 k)) _ rows
              (given-IsStep u.concurrency _ (λ k. k.concurrency) (λ k. refl)) (λ k. refl)
              (λ k. refl)
              (set_given_lem (up 0) u.enabled _ id (λ k. k) f1 f1 (rows, true) rows
                (given-IsStep u.enabled _ (λ k. k.enabled) (λ k. refl)) (λ k. refl) (λ k. refl)
                (λ e. update_where-id id rows)))))

  -- The key that a body asks for, field by field. A limit is not negative.
  abbrev pub patched : KeyEdit → ApiKey R → ApiKey R
  patched body k = record k {
    enabled = given body.enabled k.enabled;
    concurrency = given body.concurrency k.concurrency;
    rate_limit_rpm = pos_part (given body.rate_limit_rpm (pos k.rate_limit_rpm));
    model_allowlist = given body.model_allowlist k.model_allowlist;
    expires_at = later body.expires_at k.expires_at;
  }

  patched_lem : (body : KeyEdit) (k : ApiKey R) → patched body k ≡ updated (update_of body) k
  unfolding update_of
  patched_lem body k =
      ap (λ n. record (patched body k) { rate_limit_rpm = n })
        (limit_lem body.rate_limit_rpm k.rate_limit_rpm)

  -- A patch that is answered as done has in one step set exactly the fields of the body that are
  -- given, the name aside, in the key with the ID, and has changed nothing else.
  pub handle_key_patch_lem :
      (up : ℕ → Bool) (id : Str) (body : KeyEdit) (db : Database R)
      → (handle_key_patch up id (some body) db).1 ≡ done
      → (handle_key_patch up id (some body) db).0
        ≡ record db { api_keys = update_where (is_key id) (on_key (patched body)) db.api_keys }
  unfolding handle_key_patch update_api_key
  handle_key_patch_lem up id body db h = elim (Option-cases (validate body)) [
    | inr (why, e) ↦ absurd (ground arith)
    | inl e ↦ elim (Bool-cases (update_rows up id (update_of body) db.api_keys).1) [
      | inr stopped ↦ absurd (ground arith)
      | inl went ↦
          rw (handle_key_patch, e)
            (ap (λ (rows : List (KeyRow R)). record db { api_keys = rows })
              (update_rows_lem up id (update_of body) db.api_keys went
                ∙ update_where-same id (updated (update_of body)) (patched body) db.api_keys
                    (patched_lem body)))
    ]
  ]
