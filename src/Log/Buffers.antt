-- ===== src/Log/Buffers.antt =====
-- A buffer of kernel/core/log.cpp with a text in it, and the loops that write and move the text.
use planetoid_os.Base.{
  ℕ, zero, suc, ◌+◌, ◌-◌, ◌<◌, ◌≡◌, refl, sym, ap₂, ◌∙◌, fun_ext, inl, inr, Bool, ◌&&◌, [], ◌∷◌,
  ◌++◌, reverse, arith, max, ltb, leb, ◌==◌, if◌then◌else◌, ==→eq, Bool-cases, length, replicate,
  length-append, length-replicate, update, for_range,
}
use planetoid_os.Log.{Text, Buffer, copy_text, move_up, pad_left, put_digits}
use planetoid_os.Log.Numerals.{length-reverse_aux}

-- Character `i` of the text.
abbrev pub nth : Text → ℕ → ℕ
nth [] i = 0
nth (c ∷ text) zero = c
nth (c ∷ text) (suc i) = nth text i

-- The buffer with the text at `at`, and nothing else changed.
abbrev pub written : Buffer → (at : ℕ) → Text → Buffer
written buffer at text x =
    if leb at x && ltb x (at + length text) then nth text (x - at) else buffer x

nth-append :
    (text more : Text) (i : ℕ)
    → nth (text ++ more) i
      ≡ (if ltb i (length text) then nth text i else nth more (i - length text))
nth-append [] more i = ground arith
nth-append (c ∷ text) more zero = ground arith
nth-append (c ∷ text) more (suc i) = ground (arith, nth-append text more i)

nth-replicate : (n c i : ℕ) → i < n → nth (replicate n c) i ≡ c
nth-replicate zero c i small = absurd (omega arith)
nth-replicate (suc n) c zero small = refl
nth-replicate (suc n) c (suc i) small = nth-replicate n c i (omega arith)

pub written-nil : (buffer : Buffer) (at : ℕ) → written buffer at [] ≡ buffer
written-nil buffer at = fun_ext (λ x. ground arith)

-- The first character, then the others.
pub written-cons :
    (buffer : Buffer) (at c : ℕ) (text : Text)
    → written (update buffer at c) (at + 1) text ≡ written buffer at (c ∷ text)
unfolding update
written-cons buffer at c text = fun_ext (λ x. elim (Bool-cases (ltb at x)) [
  | inl inside ↦ let step : x - at ≡ suc (x - (at + 1)) = ground arith in rw step (ground arith)
  | inr outside ↦ elim (Bool-cases (x == at)) [
    | inl same ↦
        rw (==→eq x at same) (let here : at - at ≡ 0 = omega arith in rw here (ground arith))
    | inr other ↦ ground arith
  ]
])

pub copy_text-written :
    (text : Text) (at : ℕ) (buffer : Buffer) → copy_text text at buffer ≡ written buffer at text
unfolding copy_text
copy_text-written [] at buffer = sym (written-nil buffer at)
copy_text-written (c ∷ text) at buffer =
    copy_text-written text (at + 1) (update buffer at c) ∙ written-cons buffer at c text

-- Where the text comes to stand, and what it leaves behind.
move_up_lem :
    (count by at : ℕ) (buffer : Buffer) (x : ℕ)
    → move_up count by at buffer x
      ≡ (if leb (at + by) x && ltb x (at + count + by) then buffer (x - by) else buffer x)
unfolding move_up update
move_up_lem zero by at buffer x = ground arith
move_up_lem (suc i) by at buffer x = elim (Bool-cases (x == at + i + by)) [
  | inl last ↦
      let place = ==→eq x (at + i + by) last in
      let from : x - by ≡ at + i = omega (arith, place) in
      rw (move_up_lem i by at (update buffer (at + i + by) (buffer (at + i))) x, from)
        (ground (arith, place))
  | inr other ↦
      rw (move_up_lem i by at (update buffer (at + i + by) (buffer (at + i))) x) (ground arith)
]

fill_lem :
    (count first at c : ℕ) (buffer : Buffer) (x : ℕ)
    → for_range count first (λ i (b : Buffer). update b (at + i) c) buffer x
      ≡ (if leb (at + first) x && ltb x (at + first + count) then c else buffer x)
unfolding for_range update
fill_lem zero first at c buffer x = ground arith
fill_lem (suc count) first at c buffer x =
    rw (fill_lem count (first + 1) at c (update buffer (at + first) c) x) (ground arith)

-- The text with zeros before it, `width` characters at least.
abbrev pub padded : (width : ℕ) → Text → Text
padded width text = replicate (width - length text) b'0' ++ text

-- The text behind its prefix.
abbrev pub prefixed : (prefix : Bool) (letter : ℕ) → Text → Text
prefixed prefix letter text = if prefix then b'0' ∷ letter ∷ text else text

abbrev zeros : ℕ → Text
zeros pad = replicate pad b'0'

length-zeros : (pad : ℕ) → length (zeros pad) ≡ pad
length-zeros pad = length-replicate {A = ℕ} pad b'0'

pub length-padded : (width : ℕ) (text : Text) → length (padded width text) ≡ max width (length text)
length-padded width text =
    omega
      (arith, length-append (zeros (width - length text)) text, length-zeros (width - length text))

-- A text that moved up by `pad`, with zeros before it.
zeros-written :
    (at pad : ℕ) (text : Text) (buffer : Buffer) (x : ℕ)
    → for_range pad 0
        (λ i (b : Buffer). update b (at + i) b'0')
        (move_up (length text) pad at (written buffer at text))
        x
      ≡ written buffer at (zeros pad ++ text) x
zeros-written at pad text buffer x =
    fill_lem pad 0 at b'0' (move_up (length text) pad at (written buffer at text)) x
    ∙ rw
        (
          move_up_lem (length text) pad at (written buffer at text) x,
          nth-append (zeros pad) text (x - at),
          length-append (zeros pad) text,
          length-zeros pad,
        )
        (elim (Bool-cases (leb at x && ltb x (at + pad))) [
          | inl inside ↦ rw (nth-replicate pad b'0' (x - at) (ground arith)) (ground arith)
          | inr outside ↦
              let same_place : x - pad - at ≡ x - at - pad = omega arith in
              rw same_place (ground arith)
        ])

pad_left-written :
    (at width : ℕ) (text : Text) (buffer : Buffer)
    → pad_left at (length text) width (written buffer at text)
      ≡ (length (padded width text), written buffer at (padded width text))
unfolding pad_left
pad_left-written at width text buffer = elim (Bool-cases (leb width (length text))) [
  | inl wide ↦ let none_left : width - length text ≡ 0 = ground arith in rw (wide, none_left) refl
  | inr narrow ↦ rw narrow (
      ap₂ (λ (n : ℕ) (b : Buffer). (n, b)) (ground (arith, length-padded width text))
        (fun_ext (zeros-written at (width - length text) text buffer)))
]

-- A prefix of two characters before a text.
prefix-written :
    (at letter : ℕ) (text : Text) (buffer : Buffer)
    → update (update (move_up (length text) 2 at (written buffer at text)) at b'0') (at + 1) letter
      ≡ written buffer at (b'0' ∷ letter ∷ text)
unfolding update
prefix-written at letter text buffer = fun_ext (λ x. elim (Bool-cases (ltb (at + 1) x)) [
  | inl behind ↦
      let step : x - at ≡ suc (suc (x - 2 - at)) = ground arith in
      rw (move_up_lem (length text) 2 at (written buffer at text) x, step) (ground arith)
  | inr front ↦ elim (Bool-cases (x == at)) [
    | inl first ↦ let here : at - at ≡ 0 = omega arith in rw (==→eq x at first, here) (ground arith)
    | inr other ↦ elim (Bool-cases (x == at + 1)) [
      | inl second ↦
          let here : at + 1 - at ≡ 1 = omega arith in
          rw (==→eq x (at + 1) second, here) (ground arith)
      | inr outside ↦ rw (move_up_lem (length text) 2 at (written buffer at text) x) (ground arith)
    ]
  ]
])

-- The text that `put_digits` leaves in the buffer.
pub put_digits-written :
    (letter : ℕ) (temp : Text) (at : ℕ) (prefix : Bool) (width : ℕ) (buffer : Buffer)
    → let text = prefixed prefix letter (padded width (reverse temp)) in
      put_digits letter temp at prefix width buffer ≡ (length text, written buffer at text)
unfolding put_digits
put_digits-written letter temp at prefix width buffer =
    let text = reverse temp in
    let same_length : length temp ≡ length text = omega (arith, length-reverse_aux temp []) in
    rw (same_length, copy_text-written text at buffer, pad_left-written at width text buffer)
      (elim (Bool-cases prefix) [
        | inl on ↦
            rw (on, prefix-written at letter (padded width text) buffer)
              (ap₂ (λ (n : ℕ) (b : Buffer). (n, b)) (omega arith) refl)
        | inr off ↦ rw off refl
      ])

pub written-append :
    (buffer : Buffer) (at : ℕ) (text more : Text)
    → written (written buffer at text) (at + length text) more ≡ written buffer at (text ++ more)
written-append buffer at text more = fun_ext (λ x.
    let place : x - (at + length text) ≡ x - at - length text = omega arith in
    rw (nth-append text more (x - at), place) (ground (arith, length-append text more)))
