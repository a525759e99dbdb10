-- ===== src/Storage/Settings.antt =====
-- What is saved is what is loaded, and nothing else changes.
use gps_base_station.Prelude.{
  ℕ, ◌≡◌, inl, inr, refl, sym, ap, ◌∙◌, List, [], ◌∷◌, ◌++◌, Option, some, Bool, true, false,
  if◌then◌else◌, codes, arith, Bool-cases,
}
use gps_base_station.Nvs.{NvsApi, Value, u8, blob, same}
use gps_base_station.Storage.{
  Storage, ServiceCredentials, c_str, service_key, entry, get_bool, get_string, get_double, write,
  commit_all, write_all, string_value, load_position, save_position, clear_position, load_service,
  save_service,
}

-- The entry of `k` behind the writes.
abbrev pub latest {ℓ} : {V : Type ℓ} → List (List ℕ × V) → List ℕ → Option V → Option V
latest [] k old = old
latest ((k', v) ∷ ws) k old = latest ws k (if same k' k then some v else old)

same_prefix : (p xs ys : List ℕ) → same (p ++ xs) (p ++ ys) ≡ same xs ys
same_prefix [] xs ys = refl
same_prefix (x ∷ p) xs ys = ground (arith, same_prefix p xs ys)

module _ {D : Type 0} (api : NvsApi D) (zero_double : D) where
  open api use {Nvs, get, set, commit, get-set, get-set_other, get-commit}

  entry-write :
      (s : Storage Nvs) (k k' : List ℕ) (v : Value D)
      → (write api zero_double s k v).1 ≡ true
      → entry api zero_double (write api zero_double s k v).0 k'
        ≡ (if same k k' then some v else entry api zero_double s k')
  unfolding write entry
  entry-write s k k' v ok = elim (Bool-cases s.is_open) [
    | inl on ↦ ground (arith, get-set s.nvs k k' v)
    | inr off ↦ absurd (ground arith)
  ]

  entry-commit_all :
      (s : Storage Nvs) (k : List ℕ)
      → entry api zero_double (commit_all api zero_double s).0 k ≡ entry api zero_double s k
  unfolding commit_all entry
  entry-commit_all s k = ground (arith, get-commit s.nvs k)

  write_all-on :
      (ws : List (List ℕ × Value D)) (s : Storage Nvs) (k : List ℕ) (v : Value D)
      → (write api zero_double s k v).1 ≡ true
      → write_all api zero_double s ((k, v) ∷ ws)
        ≡ write_all api zero_double (write api zero_double s k v).0 ws
  unfolding write_all
  write_all-on ws s k v on = ground arith

  entry-write_all :
      (ws : List (List ℕ × Value D)) (s : Storage Nvs) (k : List ℕ)
      → (write_all api zero_double s ws).1 ≡ true
      → entry api zero_double (write_all api zero_double s ws).0 k
        ≡ latest ws k (entry api zero_double s k)
  unfolding write_all
  entry-write_all [] s k ok = entry-commit_all s k
  entry-write_all ((k', v) ∷ ws) s k ok = elim (Bool-cases (write api zero_double s k' v).1) [
    | inl on ↦
        let first = write_all-on ws s k' v on in
        ap (λ (r : Storage Nvs × Bool). entry api zero_double r.0 k) first
        ∙ entry-write_all ws (write api zero_double s k' v).0 k
            (sym (ap (λ (r : Storage Nvs × Bool). r.1) first) ∙ ok)
        ∙ ap (latest ws k) (entry-write s k' k v on)
    | inr off ↦ absurd (ground arith)
  ]

  -- No write is to the entry.
  abbrev pub Spares : List ℕ → List (List ℕ × Value D) → Type 0
  Spares k [] = Unit {0}
  Spares k ((k', v) ∷ ws) = (same k' k ≡ false) × Spares k ws

  entry-write_other :
      (s : Storage Nvs) (k k' : List ℕ) (v : Value D)
      → same k k' ≡ false
      → entry api zero_double (write api zero_double s k v).0 k' ≡ entry api zero_double s k'
  unfolding write entry
  entry-write_other s k k' v other = ground (arith, get-set_other s.nvs k k' v other)

  entry-write_all_other :
      (ws : List (List ℕ × Value D)) (s : Storage Nvs) (k : List ℕ)
      → Spares k ws
      → entry api zero_double (write_all api zero_double s ws).0 k ≡ entry api zero_double s k
  unfolding write_all
  entry-write_all_other [] s k spared = entry-commit_all s k
  entry-write_all_other ((k', v) ∷ ws) s k (other, spared) = ground (
    arith,
    entry-write_all_other ws (write api zero_double s k' v).0 k spared,
    entry-write_other s k' k v other,
  )

  -- A position that is saved with success is the one that is loaded, and it counts as valid.
  pub load_position-save_position :
      (s : Storage Nvs) (lat lon height : D)
      → (save_position api zero_double s lat lon height).1 ≡ true
      → load_position api zero_double (save_position api zero_double s lat lon height).0
        ≡ record { valid = true; lat = lat; lon = lon; height = height }
  unfolding save_position load_position get_bool get_double
  load_position-save_position s lat lon height ok =
      let ws : List (List ℕ × Value D) =
        (codes "lat", blob lat)
        ∷ (codes "lon", blob lon)
        ∷ (codes "hgt", blob height)
        ∷ (codes "pos_valid", u8 1)
        ∷ [] in
      rw
        (
          entry-write_all ws s (codes "pos_valid") ok,
          entry-write_all ws s (codes "lat") ok,
          entry-write_all ws s (codes "lon") ok,
          entry-write_all ws s (codes "hgt") ok,
        )
        refl

  -- A position that is cleared with success is not valid any more.
  pub load_position-clear_position :
      (s : Storage Nvs)
      → (clear_position api zero_double s).1 ≡ true
      → (load_position api zero_double (clear_position api zero_double s).0).valid ≡ false
  unfolding clear_position load_position get_bool
  load_position-clear_position s ok = rw (entry-write_all _ s (codes "pos_valid") ok) refl

  -- The keys of one service.
  abbrev pub Apart : List ℕ → List ℕ → Type 0
  Apart service other =
      Spares (service_key other (codes "_mp")) (
        (service_key service (codes "_mp"), string_value api zero_double [])
        ∷ (service_key service (codes "_pw"), string_value api zero_double [])
        ∷ [])
      × Spares (service_key other (codes "_pw")) (
          (service_key service (codes "_mp"), string_value api zero_double [])
          ∷ (service_key service (codes "_pw"), string_value api zero_double [])
          ∷ [])

  -- Saving the credentials of a service, whether it succeeds or fails half way, leaves alone those of any
  -- service with other keys.
  pub load_service-save_service_other :
      (s : Storage Nvs) (service other : List ℕ) (c : ServiceCredentials)
      → Apart service other
      → load_service api zero_double (save_service api zero_double s service c).0 other
        ≡ load_service api zero_double s other
  unfolding load_service save_service get_string
  load_service-save_service_other s service other c (mp, pw) =
      rw
        (
          entry-write_all_other _ s (service_key other (codes "_mp")) mp,
          entry-write_all_other _ s (service_key other (codes "_pw")) pw,
        )
        refl

  -- The credentials of a service that are saved with success are those that are loaded, up to the first
  -- zero byte of each.
  pub load_service-save_service :
      (s : Storage Nvs) (service : List ℕ) (c : ServiceCredentials)
      → (save_service api zero_double s service c).1 ≡ true
      → load_service api zero_double (save_service api zero_double s service c).0 service
        ≡ record { mountpoint = c_str c.mountpoint; password = c_str c.password }
  unfolding load_service save_service get_string
  load_service-save_service s service c ok =
      rw
        (
          entry-write_all _ s (service_key service (codes "_mp")) ok,
          entry-write_all _ s (service_key service (codes "_pw")) ok,
          same_prefix service (codes "_mp") (codes "_mp"),
          same_prefix service (codes "_pw") (codes "_mp"),
          same_prefix service (codes "_mp") (codes "_pw"),
          same_prefix service (codes "_pw") (codes "_pw"),
        )
        refl
