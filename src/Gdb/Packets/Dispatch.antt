-- ===== src/Gdb/Packets/Dispatch.antt =====
-- gdb_protocol.c: which packets the analysis accepts, and what it hands on.
use arm_sim.Base.{
  ℕ, suc, ◌+◌, ◌*◌, ◌/◌, ◌%◌, ◌<◌, ◌≡◌, ap, refl, arith, ◌==◌, if◌then◌else◌, true, List, [], ◌∷◌,
  ◌++◌,
}
use arm_sim.Base.Optional.{◌>>=◌}
use arm_sim.Host.{Host}
use arm_sim.Gdb.Text.{count, drop, take, hex_digit, hex_digits}
use arm_sim.Gdb.Text.Numbers.{scan_hex-printed}
use arm_sim.Gdb.Session.{Session, checksum, frame, gdb_send_ack, gdb_require_retransmission}
use arm_sim.Gdb.Packets.{gdb_packet_analysis, dispatch, end_of_text, terminated}

-- A text between the marks of a packet, with two digits after it.
abbrev pub marked : List ℕ → ℕ → ℕ → List ℕ
marked text h l = b'$' ∷ text ++ (b'#' ∷ hex_digit h ∷ hex_digit l ∷ [])

count-append : (xs ys : List ℕ) → count (xs ++ ys) ≡ count xs + count ys
count-append [] ys = ground arith
count-append (x ∷ xs) ys = ground (arith, count-append xs ys)

take-count : (xs ys : List ℕ) → take (count xs) (xs ++ ys) ≡ xs
take-count [] ys = refl
take-count (x ∷ xs) ys = ap (λ (l : List ℕ). x ∷ l) (take-count xs ys)

drop-count : (xs : List ℕ) (y : ℕ) (ys : List ℕ) → drop (suc (count xs)) (xs ++ (y ∷ ys)) ≡ ys
drop-count [] y ys = refl
drop-count (x ∷ xs) y ys = drop-count xs y ys

-- The sum of the characters of a text, without wrapping.
abbrev pub total : List ℕ → ℕ
total [] = 0
total (c ∷ cs) = c + total cs

-- The checksum is the sum modulo 256, as the protocol has it.
checksum_from : (c : ℕ) (text : List ℕ) → c < 256 → checksum c text ≡ (c + total text) % 256
unfolding checksum
checksum_from c [] h = omega arith
checksum_from c (x ∷ text) h =
    let later = checksum_from ((c + x) % 256) text (omega arith) in omega arith

checksum-eq-total : (text : List ℕ) → checksum 0 text ≡ total text % 256
checksum-eq-total text = let from = checksum_from 0 text (omega arith) in omega arith

module _ (text : List ℕ) (h l : ℕ) where
  end-marked : end_of_text (marked text h l) ≡ suc (count text)
  end-marked = ground (arith, count-append text (b'#' ∷ hex_digit h ∷ hex_digit l ∷ []))

  digits-marked :
      drop (suc (end_of_text (marked text h l))) (marked text h l) ≡ hex_digit h ∷ hex_digit l ∷ []
  digits-marked = rw end-marked (drop-count text b'#' (hex_digit h ∷ hex_digit l ∷ []))

  text-marked : drop 1 (take (end_of_text (marked text h l)) (marked text h l)) ≡ text
  text-marked = rw end-marked (take-count text _)

  terminated-marked :
      terminated (marked text h l) ≡ text ++ (0 ∷ hex_digit h ∷ hex_digit l ∷ 0 ∷ [])
  unfolding terminated
  terminated-marked =
      rw
        (
          end-marked,
          take-count text (b'#' ∷ hex_digit h ∷ hex_digit l ∷ []),
          drop-count text b'#' (hex_digit h ∷ hex_digit l ∷ []),
        )
        refl

  module _ (dh : h < 16) (dl : l < 16) where
    -- Of a packet with the text between its marks and two hexadecimal digits after them, in lower
    -- case, the analysis acknowledges those whose digits give the sum of the characters modulo
    -- 256, and dispatches to the handler the text as a terminated string; of the others it asks
    -- for a retransmission, and calls no handler.
    pub gdb_packet_analysis-marked :
        (host : Host) (fuel : ℕ) (s : Session)
        → gdb_packet_analysis host fuel s (marked text h l) ≡ (
            if total text % 256 == h * 16 + l
            then (do
              s₁ ← gdb_send_ack s
              dispatch host fuel s₁ (text ++ (0 ∷ hex_digit h ∷ hex_digit l ∷ 0 ∷ [])))
            else gdb_require_retransmission s)
    unfolding gdb_packet_analysis
    gdb_packet_analysis-marked host fuel s =
        let value : (0 * 16 + h) * 16 + l ≡ h * 16 + l = omega arith in
        let scanned = scan_hex-printed 32 h l [] (dh, (dl, tt)) (omega arith) in
        let summed : checksum 0 text ≡ total text % 256 = checksum-eq-total text in
        rw (digits-marked, text-marked, terminated-marked, scanned, value, summed) refl

checksum-lt : (c : ℕ) (text : List ℕ) → c < 256 → checksum c text < 256
unfolding checksum
checksum-lt c [] h = h
checksum-lt c (x ∷ text) h = checksum-lt ((c + x) % 256) text (omega arith)

-- The two digits of a byte.
hex_digits_of_byte :
    (c : ℕ) → c < 256 → hex_digits 2 c ≡ hex_digit (c / 16 % 16) ∷ hex_digit (c % 16) ∷ []
unfolding hex_digits
hex_digits_of_byte c h = ground arith

-- A packet framed as the replies are is accepted, whatever its text.
pub gdb_packet_analysis-frame :
    (host : Host) (fuel : ℕ) (s : Session) (text : List ℕ)
    → gdb_packet_analysis host fuel s (frame text) ≡ (do
      s₁ ← gdb_send_ack s
      dispatch host fuel s₁ (text ++ (0 ∷ hex_digits 2 (checksum 0 text) ++ (0 ∷ []))))
unfolding frame
gdb_packet_analysis-frame host fuel s text =
    let c = checksum 0 text in
    let small = checksum-lt 0 text (omega arith) in
    let summed : c ≡ total text % 256 = checksum-eq-total text in
    let same : (total text % 256 == c / 16 % 16 * 16 + c % 16) ≡ true = ground (arith, summed) in
    rw
      (
        hex_digits_of_byte c small,
        gdb_packet_analysis-marked text (c / 16 % 16) (c % 16) (omega arith) (omega arith) host fuel
            s,
        same,
      )
      refl
