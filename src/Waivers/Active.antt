-- ===== src/Waivers/Active.antt =====
-- waivers.py: the waivers that are active at a time.
use covsight_core.Prelude.{◌≡◌, [], ◌∷◌, true, false, not, ◌||◌, arith, refl}
use covsight_core.Prelude.Text.{Text}
use covsight_core.Waivers.{Waiver, WaiverSet, matches_scope, text_less, is_active, active_at}

pub text_less_trans :
    (a b c : Text) → text_less b a ≡ false → text_less b c ≡ true → text_less a c ≡ true
text_less_trans [] [] c p q = q
text_less_trans [] (b ∷ bs) [] p q = cc
text_less_trans [] (b ∷ bs) (c ∷ cs) p q = refl
text_less_trans (a ∷ as') [] c p q = absurd (ground arith)
text_less_trans (a ∷ as') (b ∷ bs) [] p q = absurd (ground arith)
text_less_trans (a ∷ as') (b ∷ bs) (c ∷ cs) p q = ground (arith, text_less_trans as' bs cs)

-- Waivers expire and do not come back: one that is active at a time is active at every earlier one.
is_active-earlier :
    (early late : Text) (w : Waiver)
    → text_less late early ≡ false
    → is_active late w ≡ true
    → is_active early w ≡ true
unfolding is_active
is_active-earlier early late w order h = ground (arith, text_less_trans early late w.expires_at)

-- Taking the waivers active at a time, and of those the ones active at a time that is not earlier, is
-- taking those active at the second time at once; and what they cover at the second time they cover at
-- the first.
active_at-later :
    (early late scope_path bin_name : Text) (ws : WaiverSet)
    → text_less late early ≡ false
    → (active_at late (active_at early ws) ≡ active_at late ws)
      × ((not (matches_scope scope_path bin_name (active_at late ws))
            || matches_scope scope_path bin_name (active_at early ws))
          ≡ true)
unfolding active_at matches_scope
active_at-later early late scope_path bin_name [] order = (refl, refl)
active_at-later early late scope_path bin_name (w ∷ ws) order =
    let rest = active_at-later early late scope_path bin_name ws order in
    let kept = is_active-earlier early late w order in
    (ground (arith, rest.0), ground (arith, rest.1))
