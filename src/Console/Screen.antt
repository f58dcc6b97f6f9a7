-- ===== src/Console/Screen.antt =====
-- The cursor stays on the screen.
use tp2_so.Prelude.{
  ℕ, ◌+◌, ◌-◌, ◌*◌, ◌/◌, ◌%◌, ◌<◌, ◌≤◌, ◌≡◌, refl, ap, ◌∙◌, Bool-cases, false, inl, inr, arith,
  bit_or, ◌⊎◌, if◌then◌else◌, ltb, leb, done,
}
use tp2_so.Console.{Cga, backspace, poke, place, scroll, cgaputc}

place-pos : (c : ℕ) (s : Cga) → s.pos < 24 * 80 → (place c s).pos ≤ 24 * 80
unfolding place
place-pos c s h = ground arith

place-crt :
    (c : ℕ) (s : Cga)
    → (c ≡ b'\n')
      ⊎ (c ≡ backspace)
      ⊎ ((place c s).pos ≡ s.pos + 1) × ((place c s).crt s.pos ≡ bit_or (c % 256) 0x700)
unfolding place
place-crt c s = ground arith

-- The second half of cgaputc, on what the first leaves.
finish : Cga → Cga
unfolding scroll
finish s1 =
    let s2 = if leb 24 (s1.pos / 80) then scroll s1 else s1 in
    record s2 { crt = poke s2.pos (bit_or b' ' 0x700) s2.crt }

finish-pos : (s : Cga) → s.pos ≤ 24 * 80 → (finish s).pos < 24 * 80
unfolding finish
finish-pos s h = ground arith

finish-blank : (s : Cga) → (finish s).crt (finish s).pos ≡ bit_or b' ' 0x700
unfolding finish
finish-blank s = ground arith

finish-before :
    (s : Cga)
    → s.pos ≤ 24 * 80
    → 0 < s.pos
    → (0 < (finish s).pos) × ((finish s).crt ((finish s).pos - 1) ≡ s.crt (s.pos - 1))
unfolding finish
finish-before s h p = elim (Bool-cases (leb 24 (s.pos / 80))) [
  | inl e ↦ let at_end : s.pos ≡ 1920 = ground arith in rw (e, at_end) (omega arith, refl)
  | inr e ↦ rw (e) (p, ground arith)
]

-- From a cursor on the first 24 rows, cgaputc does not panic and leaves the cursor there; a printed
-- character, one that is no newline and no backspace, stands before the new cursor, and the cell
-- under the cursor is blank.
pub cgaputc-safe :
    (c : ℕ) (s : Cga)
    → s.pos < 24 * 80
    → (t : Cga) × (cgaputc c s ≡ done t)
      × (t.pos < 24 * 80)
      × (t.crt t.pos ≡ bit_or b' ' 0x700)
      × ((c ≡ b'\n') ⊎ (c ≡ backspace) ⊎ (0 < t.pos) × (t.crt (t.pos - 1) ≡ bit_or (c % 256) 0x700))
unfolding cgaputc finish
cgaputc-safe c s h = (
  finish (place c s),
  rw (on_screen) refl,
  finish-pos (place c s) (place-pos c s h),
  finish-blank (place c s),
  elim (place-crt c s) [
    | inl n ↦ inl n
    | inr (inl b) ↦ inr (inl b)
    | inr (inr (e, v)) ↦
        let (p, w) = finish-before (place c s) (place-pos c s h) (omega arith) in
        inr (inr (p, w ∙ (ap (λ i. (place c s).crt i) (before e) ∙ v)))
  ],
)
  where
    on_screen : ltb 2000 (place c s).pos ≡ false
    on_screen = ground (arith, place-pos c s h)

    before : (place c s).pos ≡ s.pos + 1 → (place c s).pos - 1 ≡ s.pos
    before e = omega arith
