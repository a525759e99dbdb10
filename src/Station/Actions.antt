-- ===== src/Station/Actions.antt =====
-- The loop over the action queue ends, and handles the actions in the order of their requests.
use gps_base_station.Prelude.{
  ℕ, zero, suc, ◌≤◌, ◌≡◌, refl, sym, ap, subst, ◌∙◌, List, [], ◌∷◌, none, some, arith, length,
  Option-cases, inl, inr,
}
use gps_base_station.Freertos.{QueueApi, head_of, tail_of}
use gps_base_station.Nvs.{NvsApi}
use gps_base_station.Station.{Action, Station}
use gps_base_station.Station.Modes.{handle_action}
use gps_base_station.Station.Loop.{drain}

head_none : {A : Type 0} (waiting : List A) → head_of waiting ≡ none → waiting ≡ []
head_none [] e = refl
head_none (a ∷ waiting) e = absurd (ground arith)

head_some :
    {A : Type 0} (waiting : List A) (a : A)
    → head_of waiting ≡ some a
    → waiting ≡ a ∷ tail_of waiting
head_some [] a e = absurd (ground arith)
head_some (b ∷ waiting) a e = ground arith

length_zero : {A : Type 0} (waiting : List A) → length waiting ≤ 0 → waiting ≡ []
length_zero [] le = refl
length_zero (a ∷ waiting) le = absurd (omega arith)

module _ {D Queue : Type 0} (nvs : NvsApi D) (zero_double : D) (actions : QueueApi (Action D)) where
  open nvs use {Nvs}

  -- Those actions, one behind the other.
  abbrev pub handle_all :
      Station D Nvs Queue actions.Queue → List (Action D) → ℕ → Station D Nvs Queue actions.Queue
  handle_all s [] now = s
  handle_all s (a ∷ waiting) now = handle_all (handle_action nvs zero_double s a now) waiting now

  -- The queue is empty, and the rest is that after those actions.
  abbrev pub Drained :
      Station D Nvs Queue actions.Queue
      → Station D Nvs Queue actions.Queue
      → List (Action D)
      → ℕ
      → Type 0
  Drained s s' waiting now =
      (q : actions.Queue) × (s' ≡ record (handle_all s waiting now) { actions = some q })
      × (actions.items q ≡ [])

  -- With fuel for as many actions as wait, the loop handles all of them, the oldest first, and leaves the
  -- queue empty.
  pub drain_lem :
      (fuel : ℕ) (s : Station D Nvs Queue actions.Queue) (q : actions.Queue) (now : ℕ)
      → length (actions.items q) ≤ fuel
      → Drained s (drain nvs zero_double actions fuel s (some q) now) (actions.items q) now
  unfolding drain
  drain_lem zero s q now enough =
      let none_left : actions.items q ≡ [] = length_zero (actions.items q) enough in
      (
        q,
        ap (λ waiting. record (handle_all s waiting now) { actions = some q }) (sym none_left),
        none_left,
      )
  drain_lem (suc fuel) s q now enough = elim (Option-cases (actions.receive q).1) [
    | inl idle ↦
        let empty = head_none (actions.items q) (sym (actions.receive-head q) ∙ idle) in
        rw (idle, drain)
          (
            (actions.receive q).0,
            ap
                (λ (w : List (Action D)). record (handle_all s w now) {
                  actions = some (actions.receive q).0;
                })
                (sym empty),
            actions.items-receive q ∙ ap tail_of empty,
          )
    | inr (a, got) ↦
        let more = head_some (actions.items q) a (sym (actions.receive-head q) ∙ got) in
        let left : actions.items (actions.receive q).0 ≡ tail_of (actions.items q) =
          actions.items-receive q in
        let rest =
          drain_lem fuel (handle_action nvs zero_double s a now) (actions.receive q).0 now
            (omega (arith, ap length more, ap length left, enough)) in
        rw (got, drain)
          (subst
            (λ w.
              Drained s
                (drain nvs zero_double actions fuel (handle_action nvs zero_double s a now)
                  (some (actions.receive q).0) now)
                w now)
            (ap (◌∷◌ a) left ∙ sym more) rest)
  ]
