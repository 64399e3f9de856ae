-- ===== src/Ssd/Params/Products.antt =====
-- Laws of the quotients and products that ssd_init_params computes.
use dumping.Base.{
  true, ℕ, ◌<◌, ◌/◌, ◌%◌, ◌≡◌, ◌≤◌, ◌+◌, ◌*◌, ◌^◌, div_round_up, arith, u64, ◌-◌, ap, ltb, ◌&&◌,
  true,
}

pub div_round_up_covers : (n d : ℕ) → 0 < d → n + d < 2 ^ 64 → n ≤ div_round_up n d * d
div_round_up_covers n d pos h =
    let whole : u64 (n + d - 1) ≡ n + d - 1 = omega arith in rw whole (grind arith)

pub div-mul_exact : (a b : ℕ) → a % b ≡ 0 → a / b * b ≡ a
div-mul_exact a b h = grind arith

pub div_unique : (a q c : ℕ) → 0 < c → q * c ≡ a → a / c ≡ q
div_unique a q c pos e = grind arith

pub mul_pos : (a b : ℕ) → 0 < a → 0 < b → 0 < a * b
mul_pos a b h k = grind arith

pub mul_mono : (a b k : ℕ) → a ≤ b → a * k ≤ b * k
mul_mono a b k h = grind arith

-- A multiple of a multiple, divided.
pub div_chain : (a b c : ℕ) → 0 < b → 0 < c → a % b ≡ 0 → b % c ≡ 0 → a / c ≡ a / b * (b / c)
div_chain a b c pb pc h k =
    div_unique a (a / b * (b / c)) c pc
      (omega (arith, ap (λ t. a / b * t) (div-mul_exact b c k), div-mul_exact a b h))

pub div_round_up_max : (n d q : ℕ) → 0 < d → n + d < 2 ^ 64 → n ≤ q * d → div_round_up n d ≤ q
div_round_up_max n d q pos h le =
    let whole : u64 (n + d - 1) ≡ n + d - 1 = omega arith in rw whole (grind arith)

pub div_round_up_lt : (n d : ℕ) → 0 < d → n + d < 2 ^ 64 → div_round_up n d * d < n + d
div_round_up_lt n d pos h =
    let whole : u64 (n + d - 1) ≡ n + d - 1 = omega arith in rw whole (grind arith)

pub mul_mono_both : (a b c d : ℕ) → a ≤ b → c ≤ d → a * c ≤ b * d
mul_mono_both a b c d h k = grind arith

pub page_bytes : (u d : ℕ) → u % 4096 ≡ 0 → u / 4096 * d * 4096 ≡ d * u
page_bytes u d h = omega (arith, ap (λ t. t * d) (div-mul_exact u 4096 h))

pub plane_bytes : (p k b : ℕ) → p * 4096 ≡ b → p * k * 4096 ≡ b * k
plane_bytes p k b e = omega (arith, ap (λ t. t * k) e)

pub device_bytes :
    (p k l m n b : ℕ) → p * 4096 ≡ b → 8 * p * k * l * m * n * 512 ≡ b * (k * (l * m * n))
device_bytes p k l m n b e = omega (arith, ap (λ t. t * (k * (l * m * n))) e)

pub mul_ge : (a b : ℕ) → 0 < b → a ≤ a * b
mul_ge a b h = grind arith

pub all_fit :
    (a b c d e f g h : ℕ)
    → a < 2 ^ 31
    → b < 2 ^ 31
    → c < 2 ^ 31
    → d < 2 ^ 31
    → e < 2 ^ 31
    → f < 2 ^ 31
    → g < 2 ^ 31
    → h < 2 ^ 64
    → (ltb a (2 ^ 31)
        && ltb b (2 ^ 31)
        && ltb c (2 ^ 31)
        && ltb d (2 ^ 31)
        && ltb e (2 ^ 31)
        && ltb f (2 ^ 31)
        && ltb g (2 ^ 31)
        && ltb h (2 ^ 64))
      ≡ true
all_fit a b c d e f g h pa pb pc pd pe pf pg ph = ground arith
