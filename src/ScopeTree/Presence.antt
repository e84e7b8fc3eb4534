-- ===== src/ScopeTree/Presence.antt =====
-- scope_tree.py: the presence field, over all combinations of the optional fields.
use covsight_core.Prelude.{
  and_left, and_right, ℕ, ◌≡◌, Bool, true, false, not, ◌&&◌, ◌==◌, if◌then◌else◌, bit_and, arith,
  refl,
}
use covsight_core.ScopeTree.{presence_of}

-- Each combination of the six fields sets the six bits that the reader tests.
all_bool : (Bool → Bool) → Bool
all_bool p = p true && p false

all_bool_sound : (p : Bool → Bool) → all_bool p ≡ true → (b : Bool) → p b ≡ true
unfolding all_bool
all_bool_sound p h true = ground arith
all_bool_sound p h false = ground arith

agrees : ℕ → Bool → Bool
agrees masked b = if b then not (masked == 0) else masked == 0

bits_agree : Bool → Bool → Bool → Bool → Bool → Bool → Bool
bits_agree flags source weight at_least goal source_type =
    let p = presence_of flags source weight at_least goal source_type in
    agrees (bit_and p 0x01) flags
    && (agrees (bit_and p 0x02) source
        && (agrees (bit_and p 0x04) weight
            && (agrees (bit_and p 0x08) at_least
                && (agrees (bit_and p 0x20) goal && agrees (bit_and p 0x40) source_type))))

table :
    all_bool (λ a.
      all_bool (λ b.
        all_bool (λ c. all_bool (λ d. all_bool (λ e. all_bool (λ g. bits_agree a b c d e g))))))
    ≡ true
unfolding all_bool bits_agree agrees presence_of
table = refl

every : (a b c d e g : Bool) → bits_agree a b c d e g ≡ true
every a b c d e g =
    all_bool_sound (bits_agree a b c d e)
      (all_bool_sound (λ x. all_bool (bits_agree a b c d x))
        (all_bool_sound (λ x. all_bool (λ y. all_bool (bits_agree a b c x y)))
          (all_bool_sound (λ x. all_bool (λ y. all_bool (λ z. all_bool (bits_agree a b x y z))))
            (all_bool_sound
              (λ x. all_bool (λ y. all_bool (λ z. all_bool (λ u. all_bool (bits_agree a x y z u)))))
              (all_bool_sound
                (λ x. all_bool (λ y.
                  all_bool (λ z. all_bool (λ u. all_bool (λ v. all_bool (bits_agree x y z u v))))))
                table a)
              b)
            c)
          d)
        e)
      g

-- The bits of a presence field, for the six tests of the reader.
pub record Tests (p : ℕ) (flags source weight at_least goal source_type : Bool) : Type 0 where
  pub flags_bit : (bit_and p 0x01 == 0) ≡ not flags
  pub source_bit : (bit_and p 0x02 == 0) ≡ not source
  pub weight_bit : (bit_and p 0x04 == 0) ≡ not weight
  pub at_least_bit : (bit_and p 0x08 == 0) ≡ not at_least
  pub goal_bit : (bit_and p 0x20 == 0) ≡ not goal
  pub source_type_bit : (bit_and p 0x40 == 0) ≡ not source_type

agrees_lem : (masked : ℕ) (b : Bool) → agrees masked b ≡ true → (masked == 0) ≡ not b
unfolding agrees
agrees_lem masked true h = ground arith
agrees_lem masked false h = h

pub presence_of-Tests : (a b c d e g : Bool) → Tests (presence_of a b c d e g) a b c d e g
unfolding bits_agree
presence_of-Tests a b c d e g =
    let all = every a b c d e g in
    let p = presence_of a b c d e g in
    let after_a = and_right (agrees (bit_and p 0x01) a) _ all in
    let after_b = and_right (agrees (bit_and p 0x02) b) _ after_a in
    let after_c = and_right (agrees (bit_and p 0x04) c) _ after_b in
    let after_d = and_right (agrees (bit_and p 0x08) d) _ after_c in
    record {
      flags_bit = agrees_lem _ a (and_left _ _ all);
      source_bit = agrees_lem _ b (and_left _ _ after_a);
      weight_bit = agrees_lem _ c (and_left _ _ after_b);
      at_least_bit = agrees_lem _ d (and_left _ _ after_c);
      goal_bit = agrees_lem _ e (and_left _ _ after_d);
      source_type_bit = agrees_lem _ g (and_right (agrees (bit_and p 0x20) e) _ after_d);
    }
