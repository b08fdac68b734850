-- ===== src/Uci/UciFrm/Persistence.antt =====
-- SaveFrm and LoadFrms of src/uci/UciFrm.cpp, one against the other.
use gc.Common.{
  ℕ, zero, suc, ◌+◌, ◌-◌, ◌*◌, ◌/◌, ◌≤◌, ◌<◌, ◌≡◌, refl, sym, ap, ◌∙◌, false, ◌&&◌, some, List, [],
  ◌∷◌, ◌++◌, arith, ltb, leb, ◌==◌, ==_iff, length, length-append, take, get_or, Bool-cases, inl,
  inr,
}
use gc.Utils.Cnvt.{get_u16, put_u16, bytes_to_asc}
use gc.Utils.Cnvt.Hex.{length-bytes_to_asc}
use gc.Utils.Crc.{crc16_1021}
use gc.Tsisp003.Memory.{
  Memory, IsBytes, slice, Agree, length-slice, get_or-slice, slice-Agree, parse_slice,
}
use gc.Tsisp003.AppError.{AppError, app_no_error}
use gc.Tsisp003.Frame
use gc.Tsisp003.Frame.{Hardware, Kind, txt, gfx, hrg, Frame, frm_offset}
use gc.Tsisp003.Frame.Agreement.{init-Agree, verdict-Checked}
use gc.Uci.UciFrm.{
  UciFrm, store, kind_of, set_frm, saved_text, overwrite, max_frm_size, strip_newline, make_crc,
  load_packet, load_file,
}

take_all : (n : ℕ) (xs : List ℕ) → length xs ≤ n → take n xs ≡ xs
take_all zero [] h = refl
take_all zero (x ∷ xs) h = absurd (omega arith)
take_all (suc n) [] h = refl
take_all (suc n) (x ∷ xs) h = ap (λ t. x ∷ t) (take_all n xs (omega arith))

strip_newline-append : (xs : List ℕ) → strip_newline (xs ++ b'\n' ∷ []) ≡ xs
unfolding strip_newline
strip_newline-append [] = refl
strip_newline-append (x ∷ []) = refl
strip_newline-append (x ∷ y ∷ xs) = ap (λ t. x ∷ t) (strip_newline-append (y ∷ xs))

Agree-overwrite : (buf b : Memory) (n : ℕ) → Agree n buf (overwrite 0 (slice buf 0 n) b)
unfolding overwrite
Agree-overwrite buf b n i h = ground (arith, length-slice buf 0 n, get_or-slice buf 0 n i h)

get_u16_zero : (h l : ℕ) → h ≡ 0 → l ≡ 0 → get_u16 h l ≡ 0
unfolding get_u16
get_u16_zero h l e f = rw (e, f) refl

zero_pair : (k : ℕ) → get_or {A = ℕ} (put_u16 0) k 0 ≡ 0
unfolding put_u16
zero_pair zero = refl
zero_pair (suc zero) = refl
zero_pair (suc (suc k)) = refl

-- Zeros written over the last two bytes, where both are 0.
overwrite_zeros :
    (b : Memory) (len i : ℕ)
    → i < len
    → b (len - 2) ≡ 0
    → b (len - 1) ≡ 0
    → overwrite (len - 2) (put_u16 0) b i ≡ b i
unfolding overwrite
overwrite_zeros b len i h first second = elim (Bool-cases (leb (len - 2) i)) [
  | inr below ↦ rw below refl
  | inl above ↦
      let zeroth : b i ≡ 0 = elim (Bool-cases (i == len - 2)) [
        | inl e ↦ ap b ((==_iff _ _).0 e) ∙ first
        | inr e ↦ let last : i ≡ len - 1 = ground arith in ap b last ∙ second
      ] in
      ground (arith, zero_pair (i - (len - 2)), zeroth)
]

-- A checksum that is made where the right one is 0 is 0 again.
Agree-make_crc :
    (buf b : Memory) (len : ℕ)
    → Agree len buf b
    → 2 ≤ len
    → crc16_1021 (slice buf 0 (len - 2)) 0 ≡ get_u16 (buf (len - 2)) (buf (len - 2 + 1))
    → Agree len buf (make_crc len b)
unfolding make_crc
Agree-make_crc buf b len agree long crc i h =
    elim (Bool-cases (b (len - 2) == 0 && b (len - 1) == 0)) [
      | inr e ↦ rw e (agree i h)
      | inl e ↦
          let next : len - 2 + 1 ≡ len - 1 = omega arith in
          let first : b (len - 2) ≡ 0 = ground arith in
          let second : b (len - 1) ≡ 0 = ground arith in
          let made : crc16_1021 (slice b 0 (len - 2)) 0 ≡ 0 =
            ap (λ bs. crc16_1021 bs 0) (slice-Agree buf b 0 (len - 2) len agree (omega arith))
            ∙ crc
            ∙ get_u16_zero (buf (len - 2)) (buf (len - 2 + 1))
                (agree (len - 2) (omega arith) ∙ first)
                (ap buf next ∙ agree (len - 1) (omega arith) ∙ second) in
          rw (e, made) (agree i h ∙ sym (overwrite_zeros b len i h first second))
    ]

offset_bound : (kind : Kind) → 7 ≤ frm_offset kind
offset_bound txt = omega arith
offset_bound gfx = omega arith
offset_bound hrg = omega arith

parsed-crc :
    (hw : Hardware) (kind : Kind) (buf : Memory) (len : ℕ)
    → (Frame.parsed hw kind buf len).crc ≡ crc16_1021 (slice buf 0 (len - 2)) 0
unfolding Frame.parsed
parsed-crc hw kind buf len = refl

module _ (hw : Hardware) (kind : Kind) (buf : Memory) (len : ℕ) (f : Frame) where
  -- A buffer with the packet of an accepted frame is stored as that frame.
  set_frm-stores :
      (b : Memory) (u : UciFrm)
      → Agree len buf b
      → 1 ≤ len
      → kind_of (buf 0) ≡ some kind
      → Frame.init hw kind buf len ≡ (app_no_error, f)
      → set_frm hw b len u ≡ (app_no_error, store f u)
  unfolding set_frm
  set_frm-stores b u agree long mi e =
      let same = init-Agree hw buf b len agree kind (ap (λ (r : AppError × Frame). r.0) e) in
      rw (sym (agree 0 (omega arith)), mi, same, e) refl

  -- A frame that was accepted from a buffer of bytes, not longer than the buffer of LoadFrms, is read
  -- back from the text that SaveFrm writes for it: LoadFrms stores this frame, whatever its buffer and
  -- table held.
  pub load_file-saved_text :
      (b : Memory) (u : UciFrm)
      → IsBytes buf
      → kind_of (buf 0) ≡ some kind
      → Frame.init hw kind buf len ≡ (app_no_error, f)
      → len ≤ max_frm_size hw
      → (load_file hw (saved_text f) (b, u)).1 ≡ store f u
  unfolding load_file load_packet saved_text Frame.init
  load_file-saved_text b u bytes mi e fits =
      let ok : Frame.verdict hw kind buf len ≡ app_no_error =
        ap (λ (r : AppError × Frame). r.0) e in
      let (c, size) = verdict-Checked hw buf buf len (λ i h. refl) kind ok in
      let long : 9 ≤ len = omega (arith, size, offset_bound kind) in
      let raw : f.raw_data ≡ slice buf 0 len =
        sym (ap (λ (r : AppError × Frame). r.1.raw_data) e) in
      let text = bytes_to_asc (slice buf 0 len) in
      let digits : length text ≡ 2 * len =
        omega (arith, length-bytes_to_asc (slice buf 0 len), length-slice buf 0 len) in
      let all : take (max_frm_size hw * 2 + 1) (text ++ b'\n' ∷ []) ≡ text ++ b'\n' ∷ [] =
        take_all (max_frm_size hw * 2 + 1) (text ++ b'\n' ∷ [])
          (omega (arith, digits, length-append text (b'\n' ∷ []))) in
      let enough : ltb (length (text ++ b'\n' ∷ [])) (9 * 2) ≡ false =
        ground (arith, digits, length-append text (b'\n' ∷ [])) in
      let half : length text / 2 ≡ len = omega (arith, digits) in
      ap (λ (bytes' : List ℕ). (load_file hw (bytes_to_asc bytes' ++ b'\n' ∷ []) (b, u)).1) raw
      ∙ rw
          (
            all,
            strip_newline-append text,
            enough,
            parse_slice buf len bytes (omega (arith, long)),
            half,
          )
          (ap (λ (r : AppError × UciFrm). r.1)
            (set_frm-stores (make_crc len (overwrite 0 (slice buf 0 len) b)) u
              (Agree-make_crc buf _ len (Agree-overwrite buf b len) (omega (arith, long))
                (sym (parsed-crc hw kind buf len) ∙ c.crc))
              (omega (arith, long)) mi e))
