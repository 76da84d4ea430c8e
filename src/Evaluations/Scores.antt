-- ===== src/Evaluations/Scores.antt =====
-- The order of the ranking is a strict weak order.
use i_bot_core_api_service.Prelude.{◌≡◌, true, false, nat_eq, arith}
use i_bot_core_api_service.Json.{ℤ, pos, negsuc, leb_ℤ}
use i_bot_core_api_service.Order.{IsOrder}
use i_bot_core_api_service.Evaluations.Repository.{precedes}

total_ℤ : (a b : ℤ) → leb_ℤ a b ≡ false → leb_ℤ b a ≡ true
total_ℤ (pos a) (pos b) h = ground arith
total_ℤ (pos a) (negsuc b) h = ground arith
total_ℤ (negsuc a) (pos b) h = ground arith
total_ℤ (negsuc a) (negsuc b) h = ground arith

trans_ℤ : (a b c : ℤ) → leb_ℤ a b ≡ true → leb_ℤ b c ≡ true → leb_ℤ a c ≡ true
trans_ℤ (pos a) (pos b) (pos c) h k = ground arith
trans_ℤ (pos a) (pos b) (negsuc c) h k = ground arith
trans_ℤ (pos a) (negsuc b) c h k = ground arith
trans_ℤ (negsuc a) b (pos c) h k = ground arith
trans_ℤ (negsuc a) (pos b) (negsuc c) h k = ground arith
trans_ℤ (negsuc a) (negsuc b) (negsuc c) h k = ground arith

refl_ℤ : (a : ℤ) → leb_ℤ a a ≡ true
refl_ℤ (pos a) = ground arith
refl_ℤ (negsuc a) = ground arith

pub precedes-IsOrder : IsOrder precedes
precedes-IsOrder = record {
  asym = λ x y h. ground (arith, total_ℤ x.overall_score y.overall_score);
  through = λ x y z h k. ground (
    arith,
    trans_ℤ x.overall_score y.overall_score z.overall_score,
    trans_ℤ y.overall_score z.overall_score x.overall_score,
    trans_ℤ z.overall_score x.overall_score y.overall_score,
  );
  irrefl = λ x. rw (refl_ℤ x.overall_score) (ground arith);
}
