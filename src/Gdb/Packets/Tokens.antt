-- ===== src/Gdb/Packets/Tokens.antt =====
-- scanner.l: the tokens of a session.
use arm_sim.Base.{
  ℕ, ◌+◌, ◌-◌, ◌≤◌, ◌≡◌, arith, ltb, ◌==◌, if◌then◌else◌, true, Option, some, List, [], ◌∷◌,
}
use arm_sim.Base.Optional.{◌>>=◌}
use arm_sim.Base.Gives.{Meets, Meets-bind, Meets-some, Meets-weaken}
use arm_sim.Host.{Host}
use arm_sim.Core.{ArmCore}
use arm_sim.Gdb.Session.{Session, gdb_init_data, gdb_transmit_packet, gdb_require_retransmission}
use arm_sim.Gdb.Packets.{
  gdb_packet_analysis, ParserData, max_error_size, put_error, handle_error, add_character_to_error,
  Token, ack, retransmission, received, other, eof, scan,
}
use arm_sim.Gdb.Packets.Invariant.{IsSession, write_to_gdb-IsSession}
use arm_sim.Gdb.Packets.Scan.{
  IsParserData, last_place, put_error-IsSession, handle_error-IsParserData, make_room, longer,
  gdb_packet_analysis-IsSession,
}

add_character_to_error-IsParserData :
    (d : ParserData) (c : ℕ)
    → IsParserData last_place d
    → Meets (IsParserData last_place) (add_character_to_error d c)
unfolding add_character_to_error
add_character_to_error-IsParserData d c w =
    Meets-bind _ (if ltb (max_error_size - 2) d.len then handle_error d else some d) _
      (make_room d w)
      (λ d₁ w₁.
        Meets-bind _ (put_error d₁ d₁.len c) _ (put_error-IsSession d₁ d₁.len c w₁.session)
          (λ d₂ w₂.
            Meets-some _ _
              (record { session = w₂.0; room = let r = w₁.room in let e = w₂.1 in omega arith })))

-- What comes after the characters in error are gone.
then_session :
    (d : ParserData) (f : Session → Option Session)
    → IsParserData 0 d
    → Meets IsSession (f d.gdb)
    → Meets (IsParserData last_place) (do s ← f d.gdb; some (record d { gdb = s }))
then_session d f w k =
    Meets-bind _ (f d.gdb) _ k
      (λ s ws. Meets-some _ _ (record { session = ws; room = let r = w.room in omega arith }))

module _ (host : Host) (fuel : ℕ) where
  pub scan-IsParserData :
      (d : ParserData) (t : Token)
      → IsParserData last_place d
      → Meets (IsParserData last_place) (scan host fuel d t)
  unfolding scan gdb_transmit_packet
  scan-IsParserData d ack w =
      Meets-weaken (handle_error d) (λ e q. longer 0 last_place e (omega arith) q)
        (handle_error-IsParserData last_place d w)
  scan-IsParserData d retransmission w =
      Meets-bind _ (handle_error d) _ (handle_error-IsParserData last_place d w) (λ d₁ w₁.
        then_session d₁ gdb_transmit_packet w₁
          (write_to_gdb-IsSession d₁.gdb d₁.gdb.packet w₁.session))
  scan-IsParserData d (received packet) w =
      Meets-bind _ (handle_error d) _ (handle_error-IsParserData last_place d w) (λ d₁ w₁.
        then_session d₁ (λ s. gdb_packet_analysis host fuel s packet) w₁
          (gdb_packet_analysis-IsSession host fuel d₁.gdb packet w₁.session))
  scan-IsParserData d (other c) w = add_character_to_error-IsParserData d c w
  scan-IsParserData d eof w =
      Meets-weaken (handle_error d) (λ e q. longer 0 last_place e (omega arith) q)
        (handle_error-IsParserData last_place d w)

  -- A sequence of tokens.
  unfoldable pub scan_all : ParserData → List Token → Option ParserData
  scan_all d [] = some d
  scan_all d (t ∷ ts) = do d₁ ← scan host fuel d t; scan_all d₁ ts

  scan_all-IsParserData :
      (d : ParserData) (ts : List Token)
      → IsParserData last_place d
      → Meets (IsParserData last_place) (scan_all d ts)
  unfolding scan_all
  scan_all-IsParserData d [] w = Meets-some _ d w
  scan_all-IsParserData d (t ∷ ts) w =
      Meets-bind _ (scan host fuel d t) _ (scan-IsParserData d t w)
        (λ d₁ w₁. scan_all-IsParserData d₁ ts w₁)

-- The data of the scanner at its start: `gdb_scanner` sets the two fields.
abbrev pub gdb_scanner : ArmCore → (ℕ → ℕ) → (ℕ → ℕ) → ParserData
gdb_scanner core contents buffer = record {
  gdb = gdb_init_data core contents;
  buffer = buffer;
  len = 0;
}

pub gdb_scanner-IsParserData :
    (core : ArmCore) (contents buffer : ℕ → ℕ)
    → IsParserData last_place (gdb_scanner core contents buffer)
unfolding gdb_init_data
gdb_scanner-IsParserData core contents buffer = record {
  session = record {
    table = record { room = omega arith; ascending = λ i j p q. omega arith };
    packet = omega arith;
  };
  room = omega arith;
}

-- Whatever gdb sends to a new session, and whatever its arrays held: as long as the session runs, its
-- table of breakpoints ascends within its array, its last packet fits in its array, and there are
-- at most 1023 characters in error, so that their buffer has room for one more and for its terminator.
pub scan_all-gdb_scanner :
    (host : Host) (fuel : ℕ) (core : ArmCore) (contents buffer : ℕ → ℕ) (ts : List Token)
    {d : ParserData}
    → scan_all host fuel (gdb_scanner core contents buffer) ts ≡ some d
    → IsParserData last_place d
scan_all-gdb_scanner host fuel core contents buffer ts {d} e =
    let start = gdb_scanner-IsParserData core contents buffer in
    (rw e at (scan_all-IsParserData host fuel (gdb_scanner core contents buffer) ts start)).meets

-- A request for a retransmission, and no characters in error any more.
abbrev pub cleared : ParserData → ParserData
cleared d = if d.len == 0 then d else record {
  gdb = record d.gdb { sent = (b'-' ∷ []) ∷ d.gdb.sent };
  buffer = λ j. if d.len == j then 0 else d.buffer j;
  len = 0;
}

-- One more character in error.
abbrev pub extended : ParserData → ℕ → ParserData
extended d c = record d { buffer = λ j. if d.len == j then c else d.buffer j; len = d.len + 1 }

module _ (d : ParserData) (is_open : d.gdb.is_open ≡ true) (few : d.len ≤ last_place) where
  handle_error-eq : handle_error d ≡ some (cleared d)
  unfolding handle_error gdb_require_retransmission
  handle_error-eq = ground (arith, is_open)

  -- On an open connection with at most 1023 characters in error, one more is always stored within the
  -- buffer: after those that are there, or, where they fill it, at the start of the buffer once
  -- a retransmission is asked for.
  pub add_character_to_error-eq :
      (c : ℕ)
      → add_character_to_error d c
        ≡ some (if d.len == last_place then extended (cleared d) c else extended d c)
  unfolding add_character_to_error
  add_character_to_error-eq c = ground (arith, handle_error-eq)
