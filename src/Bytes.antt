-- ===== src/Bytes.antt =====
-- Little-endian numbers in a byte array: `u32::from_le_bytes` and `to_le_bytes` on a slice.
pub mod Values
use solana_gacha.Prelude.{
  ℕ, ◌+◌, ◌*◌, ◌/◌, ◌%◌, ◌^◌, ◌≤◌, ◌<◌, ◌≡◌, List, [], ◌∷◌, zero, suc, arith, length, get_or, set,
  length-set, get_or-set_self, get_or-set_ne, ◌⊎◌, ◌∙◌, ap, refl, cons-injective,
}

unfoldable pub u32_at : List ℕ → ℕ → ℕ
u32_at d s = byte s + 256 * byte (s + 1) + 65536 * byte (s + 2) + 16777216 * byte (s + 3)
  where
    byte : ℕ → ℕ
    byte i = get_or d i 0

unfoldable pub put_u32 : List ℕ → ℕ → ℕ → List ℕ
put_u32 d s v =
    set (set (set (set d s (v % 256)) (s + 1) (v / 256 % 256)) (s + 2) (v / 65536 % 256)) (s + 3)
      (v / 16777216 % 256)

pub length-put_u32 : (d : List ℕ) (s v : ℕ) → length (put_u32 d s v) ≡ length d
unfolding put_u32
length-put_u32 d s v = simp length-set

-- A write leaves the bytes outside its four alone.
pub get_or-put_u32_ne :
    (d : List ℕ) (s v i : ℕ) → (i < s) ⊎ (s + 4 ≤ i) → get_or (put_u32 d s v) i 0 ≡ get_or d i 0
unfolding put_u32
get_or-put_u32_ne d s v i h =
    let a : List ℕ = set d s (v % 256) in
    let b : List ℕ = set a (s + 1) (v / 256 % 256) in
    let c : List ℕ = set b (s + 2) (v / 65536 % 256) in
    get_or-set_ne c (s + 3) i (v / 16777216 % 256) 0 (omega arith)
    ∙ get_or-set_ne b (s + 2) i (v / 65536 % 256) 0 (omega arith)
    ∙ get_or-set_ne a (s + 1) i (v / 256 % 256) 0 (omega arith)
    ∙ get_or-set_ne d s i (v % 256) 0 (omega arith)

-- A number that is written is read back.
pub u32_at-put_u32_self :
    (d : List ℕ) (s v : ℕ) → s + 4 ≤ length d → v < 2 ^ 32 → u32_at (put_u32 d s v) s ≡ v
unfolding u32_at put_u32
u32_at-put_u32_self d s v room small =
    let a : List ℕ = set d s (v % 256) in
    let b : List ℕ = set a (s + 1) (v / 256 % 256) in
    let c : List ℕ = set b (s + 2) (v / 65536 % 256) in
    let la : length a ≡ length d = length-set d s (v % 256) in
    let lb : length b ≡ length a = length-set a (s + 1) (v / 256 % 256) in
    let lc : length c ≡ length b = length-set b (s + 2) (v / 65536 % 256) in
    omega (
      arith,
      get_or-set_self c (s + 3) (v / 16777216 % 256) 0 (omega arith),
      get_or-set_ne c (s + 3) (s + 2) (v / 16777216 % 256) 0 (omega arith),
      get_or-set_ne c (s + 3) (s + 1) (v / 16777216 % 256) 0 (omega arith),
      get_or-set_ne c (s + 3) s (v / 16777216 % 256) 0 (omega arith),
      get_or-set_self b (s + 2) (v / 65536 % 256) 0 (omega arith),
      get_or-set_ne b (s + 2) (s + 1) (v / 65536 % 256) 0 (omega arith),
      get_or-set_ne b (s + 2) s (v / 65536 % 256) 0 (omega arith),
      get_or-set_self a (s + 1) (v / 256 % 256) 0 (omega arith),
      get_or-set_ne a (s + 1) s (v / 256 % 256) 0 (omega arith),
      get_or-set_self d s (v % 256) 0 (omega arith),
    )

-- A write leaves the numbers at disjoint places alone.
pub u32_at-put_u32_ne :
    (d : List ℕ) (s v r : ℕ) → (r + 4 ≤ s) ⊎ (s + 4 ≤ r) → u32_at (put_u32 d s v) r ≡ u32_at d r
unfolding u32_at
u32_at-put_u32_ne d s v r h = omega (
  arith,
  get_or-put_u32_ne d s v r (omega arith),
  get_or-put_u32_ne d s v (r + 1) (omega arith),
  get_or-put_u32_ne d s v (r + 2) (omega arith),
  get_or-put_u32_ne d s v (r + 3) (omega arith),
)

pub u32_at-set_ne :
    (d : List ℕ) (i v r : ℕ) → (i < r) ⊎ (r + 4 ≤ i) → u32_at (set d i v) r ≡ u32_at d r
unfolding u32_at
u32_at-set_ne d i v r h = omega (
  arith,
  get_or-set_ne d i r v 0 (omega arith),
  get_or-set_ne d i (r + 1) v 0 (omega arith),
  get_or-set_ne d i (r + 2) v 0 (omega arith),
  get_or-set_ne d i (r + 3) v 0 (omega arith),
)

-- `to_le_bytes` of a number of `n` bytes.
abbrev pub le_bytes : ℕ → ℕ → List ℕ
le_bytes zero v = []
le_bytes (suc n) v = (v % 256) ∷ le_bytes n (v / 256)

-- The numbers that `n` bytes can hold.
abbrev pub byte_limit : ℕ → ℕ
byte_limit zero = 1
byte_limit (suc n) = 256 * byte_limit n

-- The numbers of a list, all below a limit.
abbrev pub AllBelow : ℕ → List ℕ → Type 0
AllBelow limit [] = Unit {0}
AllBelow limit (w ∷ ws) = (w < limit) × AllBelow limit ws

pub length-le_bytes : (n v : ℕ) → length (le_bytes n v) ≡ n
length-le_bytes zero v = refl
length-le_bytes (suc n) v = ap suc (length-le_bytes n (v / 256))

pub le_bytes_injective :
    (n u v : ℕ) → u < byte_limit n → v < byte_limit n → le_bytes n u ≡ le_bytes n v → u ≡ v
le_bytes_injective zero u v hu hv e = omega arith
le_bytes_injective (suc n) u v hu hv e =
    let (first, others) = cons-injective e in
    omega
      (arith, first, le_bytes_injective n (u / 256) (v / 256) (omega arith) (omega arith) others)
