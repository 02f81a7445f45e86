-- ===== src/Prelude/Wrapping.antt =====
-- Addition on int64 is that of the integers modulo 2^64.
use harry_performance_scrape.Prelude.{ℕ, ◌+◌, ◌≡◌, arith, ap, ◌∙◌, sym}
use harry_performance_scrape.Prelude.Int.{
  ℤ, pos, negsuc, wrap64, add64, ◌+ℤ◌, eq_of_parts, int_laws, wrap64_of_InInt64, wrap64-InInt64,
}

wrap64-add : (a b : ℤ) → wrap64 (wrap64 a +ℤ b) ≡ wrap64 (a +ℤ b)
unfolding wrap64 ◌+ℤ◌
wrap64-add (pos a) (pos b) = ground arith
wrap64-add (pos a) (negsuc b) = ground arith
wrap64-add (negsuc a) (pos b) = ground arith
wrap64-add (negsuc a) (negsuc b) = ground arith

+ℤ_comm : (a b : ℤ) → a +ℤ b ≡ b +ℤ a
+ℤ_comm a b = omega int_laws

+ℤ_assoc : (a b c : ℤ) → (a +ℤ b) +ℤ c ≡ a +ℤ (b +ℤ c)
+ℤ_assoc a b c = omega int_laws

pub add64_comm : (a b : ℤ) → add64 a b ≡ add64 b a
unfolding add64
add64_comm a b = ap wrap64 (+ℤ_comm a b)

pub add64_assoc : (a b c : ℤ) → add64 (add64 a b) c ≡ add64 a (add64 b c)
unfolding add64
add64_assoc a b c =
    wrap64-add (a +ℤ b) c
    ∙ ap wrap64 (+ℤ_assoc a b c ∙ +ℤ_comm a (b +ℤ c))
    ∙ sym (wrap64-add (b +ℤ c) a)
    ∙ ap wrap64 (+ℤ_comm (wrap64 (b +ℤ c)) a)

-- Counting on.
pub add64_pos : (m n : ℕ) → add64 (wrap64 (pos m)) (wrap64 (pos n)) ≡ wrap64 (pos (m + n))
unfolding add64
add64_pos m n =
    wrap64-add (pos m) (wrap64 (pos n))
    ∙ ap wrap64 (+ℤ_comm (pos m) (wrap64 (pos n)))
    ∙ wrap64-add (pos n) (pos m)
    ∙ ap wrap64 (eq_of_parts (pos n +ℤ pos m) (pos (m + n)) (omega int_laws))

pub add64-wrap64 : (a b : ℤ) → add64 a (wrap64 b) ≡ add64 a b
unfolding add64
add64-wrap64 a b = ap wrap64 (+ℤ_comm a (wrap64 b)) ∙ wrap64-add b a ∙ ap wrap64 (+ℤ_comm b a)

pub add64_zero : (a : ℤ) → add64 a (pos 0) ≡ wrap64 a
unfolding add64
add64_zero a = ap wrap64 (eq_of_parts (a +ℤ pos 0) a (omega int_laws))

pub wrap64-add64 : (a b : ℤ) → wrap64 (add64 a b) ≡ add64 a b
unfolding add64
wrap64-add64 a b = wrap64_of_InInt64 (wrap64 (a +ℤ b)) (wrap64-InInt64 (a +ℤ b))

pub add64_swap : (a b c : ℤ) → add64 a (add64 b c) ≡ add64 b (add64 a c)
add64_swap a b c =
    sym (add64_assoc a b c) ∙ ap (λ t. add64 t c) (add64_comm a b) ∙ add64_assoc b a c

pub add64_nothing : (a b : ℤ) → add64 a b ≡ add64 (add64 a b) (wrap64 (pos 0))
add64_nothing a b =
    sym (add64-wrap64 (add64 a b) (pos 0) ∙ add64_zero (add64 a b) ∙ wrap64-add64 a b)
