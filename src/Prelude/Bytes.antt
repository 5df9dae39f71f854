-- ===== src/Prelude/Bytes.antt =====
-- Memory as a function from an index to a byte, for a pointer whose object has bytes behind it.
use Prim.Native.Nat.{ℕ, zero, suc, ◌+◌, ◌<◌, ◌≤◌}
use mathlib.Core.Path.{◌≡◌, refl, ap, ap₂, ◌∙◌}
use mathlib.Core.List.{List, [], ◌∷◌}
use native.Mathlib.Omega.{arith}
use package.rp2040_wiznet_eaa_s_aws.Prelude.Lists.{length, get_or, take}

-- The bytes at a pointer, counted from it.
abbrev pub Mem : Type 0
Mem = ℕ → ℕ

-- `n` bytes from index `i` on, as a list.
unfoldable pub read : Mem → ℕ → ℕ → List ℕ
read m i zero = []
read m i (suc n) = m i ∷ read m (i + 1) n

pub length-read : (m : Mem) (i n : ℕ) → length (read m i n) ≡ n
unfolding read
length-read m i zero = refl
length-read m i (suc n) = ap suc (length-read m (i + 1) n)

pub get_or-read : (m : Mem) (i n k d : ℕ) → k < n → get_or (read m i n) k d ≡ m (i + k)
unfolding read
get_or-read m i zero k d h = absurd (omega arith)
get_or-read m i (suc n) zero d h = ap m (omega arith)
get_or-read m i (suc n) (suc k) d h =
    rw (get_or-read m (i + 1) n k d (omega arith)) (ap m (omega arith))

-- Two memories that agree on a range give the same list.
pub read_congr :
    (m m' : Mem) (i j n : ℕ) → ((k : ℕ) → k < n → m (i + k) ≡ m' (j + k)) → read m i n ≡ read m' j n
unfolding read
read_congr m m' i j zero h = refl
read_congr m m' i j (suc n) h = ap₂ ◌∷◌ first (read_congr m m' (i + 1) (j + 1) n rest)
  where
    first : m i ≡ m' j
    first =
        let p : i ≡ i + 0 = omega arith in
        let q : j + 0 ≡ j = omega arith in rw p (rw (h 0 (omega arith)) (ap m' q))

    rest : (k : ℕ) → k < n → m (i + 1 + k) ≡ m' (j + 1 + k)
    rest k p =
        let e : i + 1 + k ≡ i + suc k = omega arith in
        let e' : j + suc k ≡ j + 1 + k = omega arith in
        rw e (rw (h (suc k) (omega arith)) (ap m' e'))

-- Reading the first bytes of a range that holds a list.
pub read-take :
    (n : ℕ) (m : Mem) (i : ℕ) (stream : List ℕ)
    → ((k : ℕ) → k < length stream → m (i + k) ≡ get_or stream k 0)
    → n ≤ length stream
    → read m i n ≡ take n stream
unfolding read
read-take zero m i stream h fits = refl
read-take (suc n) m i [] h fits = absurd (omega arith)
read-take (suc n) m i (c ∷ stream) h fits =
    let here : i ≡ i + 0 = omega arith in
    ap₂ ◌∷◌ (ap m here ∙ h 0 (omega arith)) (
      read-take n m (i + 1) stream
        (λ k p. let e : i + 1 + k ≡ i + suc k = omega arith in ap m e ∙ h (suc k) (omega arith))
        (omega arith))
