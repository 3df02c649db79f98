-- ===== src/Prelude/Int.antt =====
-- Signed 64-bit integers as integers with range checks, over the native numbers.
use Prim.Native.Nat.{ℕ, suc, ◌+◌, ◌-◌, ◌^◌, ◌≤◌, ◌<◌}
use mathlib.Core.Path.{◌≡◌, ap}
use mathlib.Core.Bool.{Bool, ◌&&◌}
use mathlib.Core.Option.{Option, none, some}
use native.Mathlib.Omega.{arith}
use github_oidc_exchange.Prelude.Tests.{ltb, leb, if◌then◌else◌}

-- `negsuc n` is -(n + 1).
pub data ℤ : Type 0 where
  pos : ℕ → ℤ
  negsuc : ℕ → ℤ

abbrev pub pos_part : ℤ → ℕ
pos_part (pos n) = n
pos_part (negsuc n) = 0

abbrev pub neg_part : ℤ → ℕ
neg_part (pos n) = 0
neg_part (negsuc n) = suc n

abbrev pub sub_ℕ : ℕ → ℕ → ℤ
sub_ℕ a b = if leb b a then pos (a - b) else negsuc (b - a - 1)

infixl 65 ◌+ℤ◌ ◌-ℤ◌
infix 50 ◌≤ℤ◌ ◌<ℤ◌
unfoldable pub ◌+ℤ◌ : ℤ → ℤ → ℤ
a +ℤ b = sub_ℕ (pos_part a + pos_part b) (neg_part a + neg_part b)

unfoldable pub ◌-ℤ◌ : ℤ → ℤ → ℤ
a -ℤ b = sub_ℕ (pos_part a + neg_part b) (neg_part a + pos_part b)

abbrev pub ◌≤ℤ◌ : ℤ → ℤ → Type 0
a ≤ℤ b = pos_part a + neg_part b ≤ pos_part b + neg_part a

abbrev pub ◌<ℤ◌ : ℤ → ℤ → Type 0
a <ℤ b = pos_part a + neg_part b < pos_part b + neg_part a

abbrev pub ltb_ℤ : ℤ → ℤ → Bool
ltb_ℤ a b = ltb (pos_part a + neg_part b) (pos_part b + neg_part a)

abbrev pub leb_ℤ : ℤ → ℤ → Bool
leb_ℤ a b = leb (pos_part a + neg_part b) (pos_part b + neg_part a)

-- One lemma for each operation lets `omega` work with the operations shut.
pub +ℤ_parts :
    (a b : ℤ)
    → pos_part (a +ℤ b) + neg_part a + neg_part b ≡ neg_part (a +ℤ b) + pos_part a + pos_part b
unfolding ◌+ℤ◌
+ℤ_parts a b = ground arith

pub -ℤ_parts :
    (a b : ℤ)
    → pos_part (a -ℤ b) + neg_part a + pos_part b ≡ neg_part (a -ℤ b) + pos_part a + neg_part b
unfolding ◌-ℤ◌
-ℤ_parts a b = ground arith

-- `i64::MAX`, and `i64::MIN` as the number that it is the negation of.
abbrev pub i64_max : ℕ
i64_max = 2 ^ 63 - 1

abbrev pub in_i64 : ℤ → Bool
in_i64 a = leb (pos_part a) i64_max && leb (neg_part a) (2 ^ 63)

-- `i64::checked_add` and `i64::checked_sub`.
unfoldable pub checked_add : ℤ → ℤ → Option ℤ
checked_add a b = if in_i64 (a +ℤ b) then some (a +ℤ b) else none

unfoldable pub checked_sub : ℤ → ℤ → Option ℤ
checked_sub a b = if in_i64 (a -ℤ b) then some (a -ℤ b) else none

-- `i64::saturating_sub`.
unfoldable pub saturating_sub : ℤ → ℤ → ℤ
saturating_sub a b =
    if ltb i64_max (pos_part (a -ℤ b))
    then pos i64_max
    else if ltb (2 ^ 63) (neg_part (a -ℤ b))
    then negsuc i64_max
    else a -ℤ b

pub checked_add-eq-some : (a b : ℤ) {c : ℤ} → checked_add a b ≡ some c → c ≡ a +ℤ b
unfolding checked_add
checked_add-eq-some a b h = ground arith

pub checked_sub-eq-some : (a b : ℤ) {c : ℤ} → checked_sub a b ≡ some c → c ≡ a -ℤ b
unfolding checked_sub
checked_sub-eq-some a b h = ground arith

-- Times whose checked difference is positive and within a limit.
pub lifetime_bounds :
    (expires_at issued_at : ℤ) (limit : ℕ) {lifetime : ℤ}
    → checked_sub expires_at issued_at ≡ some lifetime
    → pos 0 <ℤ lifetime
    → lifetime ≤ℤ pos limit
    → (issued_at <ℤ expires_at) × (expires_at ≤ℤ issued_at +ℤ pos limit)
lifetime_bounds expires_at issued_at limit e positive short =
    let difference = checked_sub-eq-some expires_at issued_at e in
    (
      omega (arith, +ℤ_parts, -ℤ_parts, ap pos_part difference, ap neg_part difference),
      omega (arith, +ℤ_parts, -ℤ_parts, ap pos_part difference, ap neg_part difference),
    )
