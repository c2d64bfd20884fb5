-- ===== src/Selection/Ready.antt =====
-- What a server must have to be selected (src/flashptp/selection/selection.cpp).
use flashptpd.Prelude.{
  ℕ, suc, ◌+◌, ◌≡◌, refl, sym, ◌∙◌, ap, Bool, true, false, ◌&&◌, arith, ltb, ◌==◌, inl, inr,
  Bool-cases, List, [], ◌∷◌, ◌++◌, Option, some, All, All-mono, get_elem?,
}
use mathlib.Core.Path.{subst}
use flashptpd.Prelude.Int.{ℤ, eqb_ℤ, abs}
use flashptpd.Prelude.Doubles.{Doubles}
use flashptpd.Calculation.{has_adjustment}
use flashptpd.Client.Server.{Server, state_number}
use flashptpd.Selection.{
  Selection, is_member, clock_of, preselect, preselect_all, all_adjustable, detect_truechimers,
  preprocess, dev_of, ds_of, better_dev, better_ds, select_std_dev, select_btca,
}
use flashptpd.Selection.Chimers.{truechimers-All, All-append}
use flashptpd.Selection.Best.{Picks, select_std_dev-Picks, select_btca-Picks}

same_index : (i j : ℕ) → i == j ≡ true → i ≡ j
same_index i j h = ground arith

pub All-member : (P : ℕ → Type 0) (i : ℕ) (v : List ℕ) → All P v → is_member i v ≡ true → P i
unfolding is_member
All-member P i [] h m = absurd (cc)
All-member P i (j ∷ v) h m = elim (Bool-cases (i == j)) [
  | inl e ↦ subst P (sym (same_index i j e)) h.0
  | inr e ↦ All-member P i v h.1 (sym (rw e refl) ∙ m)
]

Picks-All :
    {K : Type 0} (P : ℕ → Type 0) (key : ℕ → Option K) (better : K → K → Bool) (p : List ℕ) (n : ℕ)
    (r res : List ℕ)
    → All P p
    → Picks key better p n r res
    → All P r
    → All P res
Picks-All P key better p n r res h (Picks.done q) k = k
Picks-All P key better p n r res h (Picks.exhausted m q none_left) k = k
Picks-All P key better p n r res h (Picks.next m q out i b best rest) k =
    Picks-All P key better p m (q ++ i ∷ []) out h rest
      (All-append P q (i ∷ []) k (All-member P i p h best.among, tt))

module _ (D : Doubles) (s : Selection) (clock : ℤ) where
  open D use {Double}

  -- What the first loop asks of a server.
  pub record IsPreselected (srv : Server Double) : Type 0 where
    pub ready : ltb (state_number srv.state) 4 ≡ false
    pub same_clock : eqb_ℤ (clock_of D srv) clock ≡ true
    pub allowed : srv.no_select ≡ false
    pub near : ltb s.delay_threshold (abs srv.calculation.delay_value) ≡ false

  preselect-IsPreselected :
      (srv : Server Double)
      → (preselect D s clock srv).1 ≡ true
      → IsPreselected srv × ((preselect D s clock srv).0 ≡ srv)
  unfolding preselect
  preselect-IsPreselected srv h = ground arith

  -- The entry `j` of an index list that starts with `i` is that of a server that was left as it was.
  record IsFound (i : ℕ) (servers after : List (Server Double)) (j : ℕ) : Type 0 where
    place : ℕ
    server : Server Double
    at_place : j ≡ i + place
    found : get_elem? servers place ≡ some server
    kept : get_elem? after place ≡ some server
    preselected : IsPreselected server

  preselect_all-IsFound :
      (i : ℕ) (servers : List (Server Double))
      → All
          (IsFound i servers (preselect_all D s clock i servers).0)
          (preselect_all D s clock i servers).1
  unfolding preselect_all
  preselect_all-IsFound i [] = tt
  preselect_all-IsFound i (srv ∷ servers) =
      let after = (preselect D s clock srv).0 ∷ (preselect_all D s clock (i + 1) servers).0 in
      let rest : All (IsFound i (srv ∷ servers) after) (preselect_all D s clock (i + 1) servers).1 =
        All-mono _
          (λ j f. record {
            place = suc f.place;
            server = f.server;
            at_place = omega (arith, f.at_place);
            found = f.found;
            kept = f.kept;
            preselected = f.preselected;
          })
          (preselect_all-IsFound (i + 1) servers) in
      elim (Bool-cases (preselect D s clock srv).1) [
        | inr e ↦ rw e rest
        | inl e ↦
            let here = preselect-IsPreselected srv e in
            rw e (
              record {
                place = 0;
                server = srv;
                at_place = omega arith;
                found = refl;
                kept = ap some here.1;
                preselected = here.0;
              },
              rest,
            )
      ]

  -- A server that may be selected for the clock.
  pub record IsSelectable (servers : List (Server Double)) (i : ℕ) : Type 0 where
    pub server : Server Double
    pub there : get_elem? servers i ≡ some server
    pub preselected : IsPreselected server
    pub adjustable : has_adjustment server.calculation ≡ true

  both : (a b : Bool) → a && b ≡ true → (a ≡ true) × (b ≡ true)
  both a b h = ground arith

  adjustable-IsSelectable :
      (servers after : List (Server Double)) (v : List ℕ)
      → All (IsFound 0 servers after) v
      → all_adjustable D after v ≡ true
      → All (IsSelectable servers) v
  unfolding all_adjustable
  adjustable-IsSelectable servers after [] h e = tt
  adjustable-IsSelectable servers after (j ∷ v) (f, h) e =
      let zero_based : f.place ≡ j = omega (arith, f.at_place) in
      let at : get_elem? after j ≡ some f.server =
        subst (λ n. get_elem? after n ≡ some f.server) zero_based f.kept in
      let parts =
        both (has_adjustment f.server.calculation) (all_adjustable D after v)
          (sym (rw (at, all_adjustable) refl) ∙ e) in
      (
        record {
          server = f.server;
          there = subst (λ n. get_elem? servers n ≡ some f.server) zero_based f.found;
          preselected = f.preselected;
          adjustable = parts.0;
        },
        adjustable-IsSelectable servers after v h parts.1,
      )

  preprocess-IsSelectable :
      (servers : List (Server Double)) → All (IsSelectable servers) (preprocess D s clock servers).1
  unfolding preprocess detect_truechimers
  preprocess-IsSelectable servers =
      let pre = preselect_all D s clock 0 servers in
      elim (Bool-cases (all_adjustable D pre.0 pre.1)) [
        | inr e ↦ rw e tt
        | inl e ↦ rw e (
            truechimers-All (IsSelectable servers) D s clock _ pre.1
              (adjustable-IsSelectable servers pre.0 pre.1 (preselect_all-IsFound 0 servers) e))
      ]

  pub select_std_dev-IsSelectable :
      (servers : List (Server Double))
      → All (IsSelectable servers) (select_std_dev D s clock servers).1
  select_std_dev-IsSelectable servers =
      let pre = preprocess D s clock servers in
      Picks-All (IsSelectable servers) (dev_of D pre.0) better_dev pre.1 s.pick [] _
        (preprocess-IsSelectable servers) (select_std_dev-Picks D s clock servers) tt

  pub select_btca-IsSelectable :
      (servers : List (Server Double))
      → All (IsSelectable servers) (select_btca D s clock servers).1
  select_btca-IsSelectable servers =
      let pre = preprocess D s clock servers in
      Picks-All (IsSelectable servers) (ds_of D pre.0) better_ds pre.1 s.pick [] _
        (preprocess-IsSelectable servers) (select_btca-Picks D s clock servers) tt
