-- ===== src/Rand.antt =====
-- rand.c: the Mersenne twister, and the draw of the lottery's winner. `unsigned long` has 32 bits
-- (the Makefile compiles with -m32).
pub mod State
pub mod Uniform
pub mod Tests
use tp2_so.Prelude.{
  ℕ, zero, suc, ◌+◌, ◌-◌, ◌*◌, ◌/◌, ◌%◌, ◌^◌, Bool, true, false, List, [], ◌∷◌, ◌++◌, Option, none,
  some, if◌then◌else◌, ◌==◌, ltb, leb, bit_and, bit_or, bit_xor, get_or, set, replicate,
}

abbrev pub size : ℕ
size = 624

abbrev pub middle : ℕ
middle = 397

abbrev pub matrix_a : ℕ
matrix_a = 0x9908_b0df

abbrev pub upper_mask : ℕ
upper_mask = 0x8000_0000

abbrev pub lower_mask : ℕ
lower_mask = 0x7fff_ffff

abbrev pub rand_max : ℕ
rand_max = 0x7fff_ffff

-- The static variables `mt` and `mti`.
pub record Twister : Type 0 where
  pub mt : List ℕ
  pub mti : ℕ

-- Before any call: mti == N + 1.
abbrev pub unseeded : Twister
unseeded = record { mt = replicate size 0; mti = size + 1 }

-- The loop of sgenrand, from index `i` on, with `n` words to go.
seed_loop : ℕ → ℕ → List ℕ → List ℕ
seed_loop zero i mt = mt
seed_loop (suc n) i mt = seed_loop n (i + 1) (set mt i (69069 * get_or mt (i - 1) 0 % 2 ^ 32))

-- sgenrand; `& 0xffffffff` is `% 2 ^ 32`.
pub sgenrand : ℕ → Twister → Twister
unfolding seed_loop
sgenrand seed t = record { mt = seed_loop (size - 1) 1 (set t.mt 0 (seed % 2 ^ 32)); mti = size }

-- `y = (mt[i]&UPPER_MASK)|(mt[j]&LOWER_MASK); mt[i] = mt[k] ^ (y >> 1) ^ mag01[y & 0x1];`
twist : ℕ → ℕ → ℕ → List ℕ → List ℕ
twist i j k mt =
    let y = bit_or (bit_and (get_or mt i 0) upper_mask) (bit_and (get_or mt j 0) lower_mask) in
    set mt i (bit_xor (bit_xor (get_or mt k 0) (y / 2)) (if y % 2 == 0 then 0 else matrix_a))

-- `n` rounds of one of the two loops over `kk`; word `kk + ahead - behind` is mixed in.
twist_loop : ℕ → ℕ → ℕ → ℕ → List ℕ → List ℕ
unfolding twist
twist_loop zero kk ahead behind mt = mt
twist_loop (suc n) kk ahead behind mt =
    twist_loop n (kk + 1) ahead behind (twist kk (kk + 1) (kk + ahead - behind) mt)

-- `N` new words.
generate : List ℕ → List ℕ
unfolding twist_loop twist
generate mt =
    let first = twist_loop (size - middle) 0 middle 0 mt in
    let second = twist_loop (middle - 1) (size - middle) middle size first in
    twist (size - 1) 0 (middle - 1) second

-- The tempering; shifts to the left lose the bits above 32.
temper : ℕ → ℕ
temper y0 =
    let y1 = bit_xor y0 (y0 / 2 ^ 11) in
    let y2 = bit_xor y1 (bit_and (y1 * 2 ^ 7 % 2 ^ 32) 0x9d2c_5680) in
    let y3 = bit_xor y2 (bit_and (y2 * 2 ^ 15 % 2 ^ 32) 0xefc6_0000) in bit_xor y3 (y3 / 2 ^ 18)

-- `if(mti == N+1) sgenrand(4357);`
seeded : Twister → Twister
seeded t = if t.mti == size + 1 then sgenrand 4357 t else t

-- The block of genrand under `if(mti >= N)`.
renewed : Twister → Twister
renewed t = record { mt = generate (seeded t).mt; mti = 0 }

-- The state from which the next word is read.
pub refill : Twister → Twister
refill t = if leb size t.mti then renewed t else t

-- genrand; `y & RAND_MAX` keeps the low 31 bits.
pub genrand : Twister → ℕ × Twister
genrand t =
    let t1 = refill t in (temper (get_or t1.mt t1.mti 0) % 2 ^ 31, record t1 { mti = t1.mti + 1 })

-- The variables of random_at_most.
abbrev pub num_rand : ℕ
num_rand = rand_max + 1

abbrev pub bin_size : ℕ → ℕ
bin_size max = num_rand / (max + 1)

abbrev pub defect : ℕ → ℕ
defect max = num_rand % (max + 1)

-- The loop's test: a number in the incomplete last bin is drawn again.
abbrev pub rejects : ℕ → ℕ → Bool
rejects max x = leb (num_rand - defect max) x

-- random_at_most, over any source of numbers; `none` when `fuel` draws have all been rejected.
module _ {S : Type 0} (next : S → ℕ × S) where
  pub random_at_most : ℕ → ℕ → S → Option (ℕ × S)
  random_at_most zero max s = none
  random_at_most (suc fuel) max s =
      let (x, s1) = next s in
      let again = random_at_most fuel max s1 in
      if rejects max x then again else some (x / bin_size max, s1)
