-- ===== src/Workspace/Bytes.antt =====
-- Bytes that are put behind others, and cut apart again.
use replay_kit.Common.{ℕ, zero, suc, ◌+◌, ◌≤◌, [], ◌∷◌, length, ◌≡◌, refl, ap, arith}
use replay_kit.Storage.Blob.{Bytes}
use replay_kit.Workspace.Archive.{append_bytes, skip, first_bytes}

pub length-append_bytes : (xs ys : Bytes) → length (append_bytes xs ys) ≡ length xs + length ys
length-append_bytes [] ys = omega arith
length-append_bytes (x ∷ xs) ys = omega (arith, length-append_bytes xs ys)

-- A part of some bytes is where it was when more are put behind them.
first-append :
    (n : ℕ) (xs ys : Bytes) → n ≤ length xs → first_bytes n (append_bytes xs ys) ≡ first_bytes n xs
first-append zero xs ys h = refl
first-append (suc n) [] ys h = absurd (omega arith)
first-append (suc n) (x ∷ xs) ys h = ap (λ l. x ∷ l) (first-append n xs ys (omega arith))

pub part-append :
    (k n : ℕ) (xs ys : Bytes)
    → k + n ≤ length xs
    → first_bytes n (skip k (append_bytes xs ys)) ≡ first_bytes n (skip k xs)
part-append zero n xs ys h = first-append n xs ys (omega arith)
part-append (suc k) n [] ys h = absurd (omega arith)
part-append (suc k) n (x ∷ xs) ys h = part-append k n xs ys (omega arith)

first-all : (xs : Bytes) → first_bytes (length xs) xs ≡ xs
first-all [] = refl
first-all (x ∷ xs) = ap (λ l. x ∷ l) (first-all xs)

pub part-last :
    (xs ys : Bytes) → first_bytes (length ys) (skip (length xs) (append_bytes xs ys)) ≡ ys
part-last [] ys = first-all ys
part-last (x ∷ xs) ys = part-last xs ys

pub first_bytes-append : (a b : Bytes) → first_bytes (length a) (append_bytes a b) ≡ a
first_bytes-append [] b = refl
first_bytes-append (x ∷ a) b = rw (first_bytes-append a b) refl

pub skip-append : (a b : Bytes) → skip (length a) (append_bytes a b) ≡ b
skip-append [] b = refl
skip-append (x ∷ a) b = skip-append a b
