-- ===== src/Websocket/Parser/Digits.antt =====
-- What the two bytes of flags and the bytes of a length give back.
use xynet.Prelude.{ℕ, zero, suc, ◌+◌, ◌-◌, ◌*◌, ◌%◌, ◌^◌, ◌≤◌, ◌<◌, ◌≡◌, refl, arith, ◌∙◌, ap}
use xynet.Prelude.{if◌then◌else◌, bit_and, bit_or}
use xynet.Prelude.{List, [], ◌∷◌, ◌++◌, length, All}
use xynet.Prelude.Bits.{every_below, table, bit_or_shifted}
use xynet.Websocket.Flags.{ws_has_mask, has}
use xynet.Websocket.Header.Layout.{first_byte, be_bytes}
use xynet.Websocket.Parser.Scan.{length_loop_done, length_loop_step}
use xynet.Websocket.Parser.{WebsocketFrameHeaderParser, new_parser}
use xynet.Websocket.Parser.{start_byte, length_byte, length_loop}

-- The number that big-endian bytes continue.
abbrev pub horner : ℕ → List ℕ → ℕ
horner acc [] = acc
horner acc (b ∷ bs) = horner (acc * 256 + b) bs

le-horner : (acc : ℕ) (bs : List ℕ) → acc ≤ horner acc bs
le-horner acc [] = omega arith
le-horner acc (b ∷ bs) = omega (arith, le-horner (acc * 256 + b) bs)

or_low_byte :
    (acc b : ℕ) → b < 256 → acc * 256 + b < 2 ^ 64 → bit_or (acc * 256 % 2 ^ 64) b ≡ acc * 256 + b
or_low_byte acc b hb h =
    let e : acc * 256 % 2 ^ 64 ≡ acc * 2 ^ 8 = omega arith in
    rw e (omega (arith, bit_or_shifted 8 (acc * 2 ^ 8) acc b refl hb))

length_byte-value :
    (s : WebsocketFrameHeaderParser) (b : ℕ)
    → b < 256
    → s.m_length * 256 + b < 2 ^ 64
    → length_byte s b ≡ record s { m_length = s.m_length * 256 + b; m_require = s.m_require - 1 }
unfolding length_byte
length_byte-value s b hb h =
    ap (λ (v : ℕ). record s { m_length = v; m_require = s.m_require - 1 })
      (or_low_byte s.m_length b hb h)

-- Where the number fits 64 bits, the loop computes it and wants no more.
pub length_loop-horner :
    (s : WebsocketFrameHeaderParser) (bs rest : List ℕ)
    → s.m_require ≡ length bs
    → All (λ b. b < 256) bs
    → horner s.m_length bs < 2 ^ 64
    → length_loop s (bs ++ rest)
      ≡ (record s { m_length = horner s.m_length bs; m_require = 0 }, rest)
length_loop-horner s [] rest e h fits =
    length_loop_done s rest e ∙ ap (λ (k : ℕ). (record s { m_require = k }, rest)) e
length_loop-horner s (b ∷ bs) rest e (hb, hbs) fits =
    length_loop_step s b (bs ++ rest) (omega arith)
    ∙ ap (λ t. length_loop t (bs ++ rest)) (length_byte-value s b hb below)
    ∙ length_loop-horner (record s { m_length = s.m_length * 256 + b; m_require = s.m_require - 1 })
        bs rest (omega arith) hbs fits
  where
    below : s.m_length * 256 + b < 2 ^ 64
    below = omega (arith, le-horner (s.m_length * 256 + b) bs)

pub be_bytes-All : (k n : ℕ) → All (λ b. b < 256) (be_bytes k n)
be_bytes-All zero n = tt
be_bytes-All (suc k) n = (omega arith, be_bytes-All k n)

pub horner_two : (n : ℕ) → n ≤ 0xFFFF → horner 0 (be_bytes 2 n) ≡ n
horner_two n h = omega arith

pub horner_eight : (n : ℕ) → n < 2 ^ 64 → horner 0 (be_bytes 8 n) ≡ n
horner_eight n h = omega arith

-- The flags that the two bytes give back.
pub first_flags :
    (f : ℕ) → f < 256 → (start_byte new_parser (first_byte f)).m_flags ≡ bit_and f 0x1F
unfolding every_below start_byte
first_flags = table 256 _ _ refl

pub second_flags :
    (f : ℕ)
    → f < 256
    → (if has f ws_has_mask then bit_or (bit_and f 0x1F) ws_has_mask else bit_and f 0x1F)
      ≡ bit_and f 0x3F
unfolding every_below
second_flags = table 256 _ _ refl

pub mask_flag : (f : ℕ) → f < 256 → bit_and (bit_and f 0x3F) ws_has_mask ≡ bit_and f ws_has_mask
unfolding every_below
mask_flag = table 256 _ _ refl

-- The second byte gives back the mark of a mask and the length code.
pub marked_code : (c : ℕ) → c < 128 → bit_and (128 + c) 0x7F ≡ c
unfolding every_below
marked_code = table 128 _ _ refl

pub plain_code : (c : ℕ) → c < 128 → bit_and (0 + c) 0x7F ≡ c
unfolding every_below
plain_code = table 128 _ _ refl

pub marked : (c : ℕ) → c < 128 → bit_and (128 + c) 0x80 ≡ 128
unfolding every_below
marked = table 128 _ _ refl

pub not_marked : (c : ℕ) → c < 128 → bit_and (0 + c) 0x80 ≡ 0
unfolding every_below
not_marked = table 128 _ _ refl
