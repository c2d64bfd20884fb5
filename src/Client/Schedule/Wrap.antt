-- ===== src/Client/Schedule/Wrap.antt =====
-- The wrap-around of `stateUsec` (src/flashptp/client/server.cpp).
use flashptpd.Prelude.{ℕ, ◌+◌, ◌*◌, ◌%◌, ◌^◌, ◌≡◌, ◌<◌, ap, sym, ◌∙◌, arith}
use flashptpd.Prelude.Int.{ℤ, pos, negsuc, ◌-ℤ◌, int_laws}
use flashptpd.Config.{to_signed, to_unsigned}

same_residue : (z : ℤ) → to_unsigned 32 (to_signed 32 z) ≡ to_unsigned 32 z
unfolding to_signed to_unsigned ◌-ℤ◌
same_residue (pos n) = ground arith
same_residue (negsuc n) = ground arith

residue-sub :
    (z : ℤ) (a : ℕ) → to_unsigned 32 (z -ℤ pos a) ≡ (to_unsigned 32 z + 4294967295 * a) % 2 ^ 32
unfolding to_unsigned ◌-ℤ◌
residue-sub (pos n) a = ground arith
residue-sub (negsuc n) a = ground arith

to_signed-residue :
    (y z : ℤ) → to_unsigned 32 y ≡ to_unsigned 32 z → to_signed 32 y ≡ to_signed 32 z
unfolding to_signed
to_signed-residue y z h = cc h

pub small : (n : ℕ) → n < 2 ^ 31 → to_signed 32 (pos n) ≡ pos n
unfolding to_signed to_unsigned
small n h = ground arith

zero_residue : (z : ℤ) → to_signed 32 z ≡ pos 0 → to_unsigned 32 z ≡ 0
unfolding to_unsigned
zero_residue z h = sym (same_residue z) ∙ ap (to_unsigned 32) h

-- What has wrapped around before does not matter.
pub wrap-sub : (z : ℤ) (a : ℕ) → to_signed 32 (to_signed 32 z -ℤ pos a) ≡ to_signed 32 (z -ℤ pos a)
wrap-sub z a = to_signed-residue (to_signed 32 z -ℤ pos a) (z -ℤ pos a) (
    residue-sub (to_signed 32 z) a
    ∙ ap (λ (u : ℕ). (u + 4294967295 * a) % 2 ^ 32) (same_residue z)
    ∙ sym (residue-sub z a))

near_zero : (a b : ℕ) → to_unsigned 32 (pos a -ℤ pos b) ≡ 0 → a < 2 ^ 32 → b < a + 2 ^ 32 → b ≡ a
unfolding to_unsigned ◌-ℤ◌
near_zero a b h l r = ground arith

-- A difference meets zero where its sides are equal, and then not again for 2 ^ 32.
pub difference_zero :
    (a b : ℕ) → to_signed 32 (pos a -ℤ pos b) ≡ pos 0 → a < 2 ^ 32 → b < a + 2 ^ 32 → b ≡ a
difference_zero a b h = near_zero a b (zero_residue (pos a -ℤ pos b) h)

same_difference : (a b : ℕ) → a ≡ b → pos a -ℤ pos b ≡ pos 0
same_difference a b h = omega (int_laws)

pub wrapped_difference : (a b : ℕ) → a ≡ b → to_signed 32 (pos a -ℤ pos b) ≡ pos 0
wrapped_difference a b h = ap (to_signed 32) (same_difference a b h) ∙ small 0 (omega arith)
