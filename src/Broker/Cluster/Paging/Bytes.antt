-- ===== src/Broker/Cluster/Paging/Bytes.antt =====
-- Bytes of a file after a write behind them.
use r_amqp.Common.{ℕ, zero, suc, ◌+◌, ◌≤◌, ◌≡◌, refl, ap, arith, [], ◌∷◌, ◌++◌, length, take}
use r_amqp.Broker.Policy.{Body}
use r_amqp.Broker.Cluster.Paging.{slice}

take-append : (n : ℕ) (xs ys : Body) → n ≤ length xs → take n (xs ++ ys) ≡ take n xs
take-append zero xs ys h = refl
take-append (suc n) [] ys h = absurd (omega (arith, h))
take-append (suc n) (x ∷ xs) ys h = ap (λ r. x ∷ r) (take-append n xs ys (omega (arith, h)))

-- Before the offset of a write all stays.
pub slice-write :
    (o n m : ℕ) (xs zs : Body)
    → o + n ≤ m
    → m ≤ length xs
    → slice o n (take m xs ++ zs) ≡ slice o n xs
slice-write zero zero m xs zs h k = refl
slice-write zero (suc n) zero xs zs h k = absurd (omega (arith, h))
slice-write zero (suc n) (suc m) [] zs h k = absurd (omega (arith, k))
slice-write zero (suc n) (suc m) (x ∷ xs) zs h k =
    ap (λ r. x ∷ r) (slice-write zero n m xs zs (omega (arith, h)) (omega (arith, k)))
slice-write (suc o) n zero xs zs h k = absurd (omega (arith, h))
slice-write (suc o) n (suc m) [] zs h k = absurd (omega (arith, k))
slice-write (suc o) n (suc m) (x ∷ xs) zs h k =
    slice-write o n m xs zs (omega (arith, h)) (omega (arith, k))

take_all : (ys zs : Body) → take (length ys) (ys ++ zs) ≡ ys
take_all [] zs = refl
take_all (y ∷ ys) zs = ap (λ r. y ∷ r) (take_all ys zs)

-- At the offset is what was written.
pub slice-written :
    (m : ℕ) (xs ys zs : Body) → m ≤ length xs → slice m (length ys) (take m xs ++ (ys ++ zs)) ≡ ys
slice-written zero xs ys zs h = take_all ys zs
slice-written (suc m) [] ys zs h = absurd (omega (arith, h))
slice-written (suc m) (x ∷ xs) ys zs h = slice-written m xs ys zs (omega (arith, h))

pub length-written :
    (m : ℕ) (xs ys zs : Body) → m ≤ length xs → m + length ys ≤ length (take m xs ++ (ys ++ zs))
length-written zero xs [] zs h = omega arith
length-written zero xs (y ∷ ys) zs h = ground (arith, length-written zero xs ys zs)
length-written (suc m) [] ys zs h = absurd (omega (arith, h))
length-written (suc m) (x ∷ xs) ys zs h = ground (arith, length-written m xs ys zs, h)
