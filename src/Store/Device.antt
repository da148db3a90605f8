-- ===== src/Store/Device.antt =====
-- internal/store/store.go: `LoadOrCreateDeviceKey`. The device's row holds the encrypted PEM text of
-- its private key.
use mirasim2api.Base.{
  ◌≡◌, refl, ap, Bool, true, Option, none, some, Str, arith, Option-cases, Bool-cases, inl, inr,
  if◌then◌else◌,
}
use mirasim2api.Mirasim.Crypto.{Primitives, device_identity}
use mirasim2api.Mirasim.Device.{
  KeyCodec, IsCodec, marshal_private_key_pem, parse_private_key_pem, parse-marshal_private_key_pem,
}
use mirasim2api.Store.Accounts.{Cipher}
use mirasim2api.Store.Database.{Database}

pub record DeviceKey : Type 0 where
  pub priv : Str
  pub device_id : Str
  pub public_key_b64 : Str

unfoldable pub device_key : Primitives → Str → DeviceKey
device_key lib priv =
    let (id, public_key_b64) = device_identity lib priv in
    record { priv = priv; device_id = id; public_key_b64 = public_key_b64 }

-- The key of a row that is there.
unfoldable pub read_device_key : Primitives → Cipher → KeyCodec → (enc : Str) → Option DeviceKey
read_device_key lib cipher k enc = elim (cipher.decrypt enc) [
  | none ↦ none
  | some pem ↦ elim (parse_private_key_pem k pem) [
    | none ↦ none
    | some priv ↦ some (device_key lib priv)
  ]
]

module _ {R : Type 0} (lib : Primitives) (cipher : Cipher) (k : KeyCodec) where
  -- `drawn` is the key that is generated, if one is, and `up` what the insertion answers.
  unfoldable pub create_device_key :
      (up : Bool) (drawn : Option Str) → Database R → Database R × Option DeviceKey
  create_device_key up none db = (db, none)
  create_device_key up (some priv) db = elim (marshal_private_key_pem k priv) [
    | none ↦ (db, none)
    | some pem ↦
        if up
        then (record db { device = some (cipher.encrypt pem) }, some (device_key lib priv))
        else (db, none)
  ]

  -- `reads` says whether the query runs.
  unfoldable pub load_or_create_device_key :
      (reads up : Bool) (drawn : Option Str) → Database R → Database R × Option DeviceKey
  load_or_create_device_key reads up drawn db =
      if reads
      then (elim db.device [
        | none ↦ create_device_key up drawn db
        | some enc ↦ (db, read_device_key lib cipher k enc)
      ])
      else (db, none)

  create_device_key_again :
      (up : Bool) (drawn : Option Str) (db : Database R) (key : DeviceKey)
      → IsCodec k
      → ((s : Str) → cipher.decrypt (cipher.encrypt s) ≡ some s)
      → (create_device_key up drawn db).1 ≡ some key
      → (enc : Str) × ((create_device_key up drawn db).0.device ≡ some enc)
        × (read_device_key lib cipher k enc ≡ some key)
  unfolding create_device_key read_device_key
  create_device_key_again up none db key c x h = absurd (cc)
  create_device_key_again up (some priv) db key c x h =
      elim (Option-cases (marshal_private_key_pem k priv)) [
        | inl e ↦ absurd (ground arith)
        | inr (pem, e) ↦ elim (Bool-cases up) [
          | inr f ↦ absurd (ground arith)
          | inl t ↦
              let same : device_key lib priv ≡ key = ground arith in
              (
                cipher.encrypt pem,
                rw (create_device_key, e, t) refl,
                rw (read_device_key, x pem, parse-marshal_private_key_pem k priv pem c e, same)
                    refl,
              )
        ]
      ]

  abbrev by_row : Bool → Option Str → Database R → Option Str → Database R × Option DeviceKey
  by_row up drawn db row = elim row [
    | none ↦ create_device_key up drawn db
    | some enc ↦ (db, read_device_key lib cipher k enc)
  ]

  load_found :
      (up : Bool) (drawn : Option Str) (db : Database R) (enc : Str)
      → db.device ≡ some enc
      → load_or_create_device_key true up drawn db ≡ (db, read_device_key lib cipher k enc)
  unfolding load_or_create_device_key
  load_found up drawn db enc e = ap (by_row up drawn db) e

  load_missing :
      (up : Bool) (drawn : Option Str) (db : Database R)
      → db.device ≡ none
      → load_or_create_device_key true up drawn db ≡ create_device_key up drawn db
  unfolding load_or_create_device_key
  load_missing up drawn db e = ap (by_row up drawn db) e

  -- Where the encodings and the cipher give back what they are given, a device key that was loaded or
  -- created is loaded again at the next start, whatever is drawn then and without a write.
  pub device_key_again :
      (up up' : Bool) (drawn drawn' : Option Str) (db : Database R) (key : DeviceKey)
      → IsCodec k
      → ((s : Str) → cipher.decrypt (cipher.encrypt s) ≡ some s)
      → (load_or_create_device_key true up drawn db).1 ≡ some key
      → load_or_create_device_key true up' drawn' (load_or_create_device_key true up drawn db).0
        ≡ ((load_or_create_device_key true up drawn db).0, some key)
  device_key_again up up' drawn drawn' db key c x h = elim (Option-cases db.device) [
    | inr (enc, e) ↦
        let first = load_found up drawn db enc e in
        let kept : read_device_key lib cipher k enc ≡ some key = rw first at h in
        rw (first, load_found up' drawn' db enc e, kept) refl
    | inl e ↦
        let first = load_missing up drawn db e in
        let db1 = (create_device_key up drawn db).0 in
        let (enc, there, kept) = create_device_key_again up drawn db key c x (rw first at h) in
        rw (first, load_found up' drawn' db1 enc there, kept) refl
  ]
