-- ===== src/Sd/Reference.antt =====
-- A card as a list of entries: an instance of the interface, for the runs.
use gps_base_station.Prelude.{
  ◌+◌, ◌<◌, ◌≡◌, refl, sym, subst, ◌≢◌, List, [], ◌∷◌, ◌++◌, Option, none, some, Bool, true, false,
  not, ◌&&◌, ltb, ◌==◌, if◌then◌else◌, length, drop, starts_with, arith, inl, inr, Bool-cases,
}
use gps_base_station.Nvs.{same, same-of-eq}
use gps_base_station.Sd.{PathText, Entry, directory, file, FsApi}

abbrev pub Card : Type 0
Card = List (PathText × Entry)

unfoldable pub look : Card → PathText → Option Entry
look [] path = none
look ((p, e) ∷ card) path = if same path p then some e else look card path

unfoldable pub without : Card → PathText → Card
without [] path = []
without ((p, e) ∷ card) path =
    let rest = without card path in if same path p then rest else (p, e) ∷ rest

unfoldable pub has_slash : PathText → Bool
has_slash [] = false
has_slash (c ∷ name) = if c == 47 then true else has_slash name

unfoldable pub children : Card → PathText → List PathText
unfolding has_slash
children [] path = []
children ((p, e) ∷ card) path =
    let rest = children card path in
    let name = drop (length path + 1) p in
    if starts_with p (path ++ 47 ∷ []) && not (has_slash name) then name ∷ rest else rest

unfoldable pub unlink_from : Card → PathText → Option Entry → Card × Bool
unlink_from card path (some (file size)) = (without card path, true)
unlink_from card path (some directory) = (card, false)
unlink_from card path none = (card, false)

unfoldable pub rmdir_from : Card → PathText → Option Entry → Card × Bool
rmdir_from card path (some directory) =
    if length (children card path) == 0 then (without card path, true) else (card, false)
rmdir_from card path (some (file size)) = (card, false)
rmdir_from card path none = (card, false)

unfoldable pub card_stat : Card → PathText → Option Entry
unfolding look
card_stat card path = if ltb 60 (length path) then none else look card path

pub card_stat_long : (card : Card) (path : PathText) → 60 < length path → card_stat card path ≡ none
unfolding card_stat
card_stat_long card path long = ground arith

abbrev pub card_api : FsApi
card_api = record {
  Fs = Card;
  max_path = 60;
  stat = card_stat;
  read_dir = λ card path. some (children card path);
  unlink = λ card path. unlink_from card path (look card path);
  rmdir = λ card path. rmdir_from card path (look card path);
  stat_long = card_stat_long;
}

eq-of-same : (p q : PathText) → same p q ≡ true → p ≡ q
eq-of-same [] [] h = refl
eq-of-same [] (d ∷ q) h = absurd (ground arith)
eq-of-same (c ∷ p) [] h = absurd (ground arith)
eq-of-same (c ∷ p) (d ∷ q) h = ground (arith, eq-of-same p q)

look-without :
    (card : Card) (path q : PathText) → path ≢ q → look (without card path) q ≡ look card q
unfolding look without
look-without [] path q ne = refl
look-without ((p, e) ∷ card) path q ne =
    ground (arith, look-without card path q ne, eq-of-same path p, eq-of-same q p)

pub look-unlink :
    (card : Card) (path q : PathText) (found : Option Entry)
    → path ≢ q
    → look (unlink_from card path found).0 q ≡ look card q
unfolding unlink_from
look-unlink card path q (some (file size)) ne = look-without card path q ne
look-unlink card path q (some directory) ne = refl
look-unlink card path q none ne = refl

pub look-rmdir :
    (card : Card) (path q : PathText) (found : Option Entry)
    → path ≢ q
    → look (rmdir_from card path found).0 q ≡ look card q
unfolding rmdir_from
look-rmdir card path q (some (file size)) ne = refl
look-rmdir card path q (some directory) ne = ground (arith, look-without card path q ne)
look-rmdir card path q none ne = refl

-- A directory is not unlinked.
pub look-unlink_directory :
    (card : Card) (path q : PathText)
    → look card q ≡ some directory
    → look (unlink_from card path (look card path)).0 q ≡ some directory
unfolding unlink_from
look-unlink_directory card path q d = elim (Bool-cases (same path q)) [
  | inl s ↦
      subst (λ r. look (unlink_from card r (look card r)).0 q ≡ some directory)
        (sym (eq-of-same path q s)) (rw (d, unlink_from) d)
  | inr other ↦
      rw (look-unlink card path q (look card path) (λ e. cc (same-of-eq path q e, other))) d
]
