-- ===== src/Examples/SelectionExamples.antt =====
-- The theorems on the selection, at concrete inputs.
use flashptpd.Prelude.{◌≡◌, refl, true, List, [], ◌∷◌}
use flashptpd.Prelude.Int.{ℤ, pos, ◌-ℤ◌}
use flashptpd.Wire.Tlv.{ServerStateDs, zero_ds}
use flashptpd.Client.Server.{Server}
use flashptpd.Calculation.{has_adjustment}
use flashptpd.Selection.{
  pick_best, find_best, improve, all_adjustable, preselect_all, preselect, clock_of,
  detect_truechimers, truechimers, set_states, set_state, others, is_member, compare, Selection,
  better_ds, better_dev, preprocess, dev_of, ds_of, select_std_dev, select_btca,
}
use flashptpd.Selection.Best.{Picks, select_std_dev-Picks, select_btca-Picks}
use flashptpd.Selection.Order.{precedes, better_ds-precedes}
use flashptpd.Examples.Integers.{integers}
use flashptpd.Examples.ServerExamples.{server}

abbrev pub selection : Selection
selection = record {
  pick = 1;
  delay_threshold = 1500000000;
  intersection_padding = 0;
  max_offset_difference = 0;
}

abbrev ready : ℤ → ServerStateDs → Server ℤ
ready dev ds = record server {
  clock_id = pos 5;
  std_dev = dev;
  server_state_ds = ds;
  server_state_ds_valid = true;
  calculation = record server.calculation { is_valid = true; adjustment = true };
}

abbrev better : ServerStateDs
better = record zero_ds { gm_priority1 = 1 }

abbrev worse : ServerStateDs
worse = record zero_ds { gm_priority1 = 2 }

abbrev pub servers : List (Server ℤ)
servers = ready (pos 7) worse ∷ ready (pos 9) better ∷ []

-- The server with the smaller deviation, and the one with the better data set.
chosen_std_dev : (select_std_dev integers selection (pos 5) servers).1 ≡ 0 ∷ []
unfolding select_std_dev dev_of pick_best find_best improve preprocess all_adjustable preselect_all
    preselect clock_of has_adjustment detect_truechimers truechimers set_states set_state others
    is_member
chosen_std_dev = refl

chosen_btca : (select_btca integers selection (pos 5) servers).1 ≡ 1 ∷ []
unfolding select_btca ds_of better_ds compare ◌-ℤ◌ pick_best find_best improve preprocess
    all_adjustable preselect_all preselect clock_of has_adjustment detect_truechimers truechimers
    set_states set_state others is_member
chosen_btca = refl

select_std_dev-Picks_example :
    let pre = preprocess integers selection (pos 5) servers in
    Picks
      (dev_of integers pre.0)
      better_dev
      pre.1
      1
      []
      (select_std_dev integers selection (pos 5) servers).1
select_std_dev-Picks_example = select_std_dev-Picks integers selection (pos 5) servers

select_btca-Picks_example :
    let pre = preprocess integers selection (pos 5) servers in
    Picks
      (ds_of integers pre.0)
      better_ds
      pre.1
      1
      []
      (select_btca integers selection (pos 5) servers).1
select_btca-Picks_example = select_btca-Picks integers selection (pos 5) servers

better_ds-precedes_example : better_ds better worse ≡ precedes better worse
better_ds-precedes_example = better_ds-precedes better worse

-- Three servers.
abbrev three : List (Server ℤ)
three = ready (pos 7) worse ∷ ready (pos 9) better ∷ ready (pos 3) worse ∷ []
