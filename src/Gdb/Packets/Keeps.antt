-- ===== src/Gdb/Packets/Keeps.antt =====
-- gdb_protocol.c, scanner.l: what a token leaves of a session, from what each handler leaves of it.
use arm_sim.Base.{ℕ, suc, ◌-◌, ltb, ◌==◌, if◌then◌else◌, Option, some, none, List, [], ◌∷◌}
use arm_sim.Base.Gives.{Meets, Meets-bind, Meets-after, Meets-if, Meets-some, Meets-none}
use arm_sim.Host.{Host}
use arm_sim.Gdb.Text.{drop, take, scan_hex}
use arm_sim.Gdb.Session.{
  Session, checksum, write_to_gdb, gdb_transmit_packet, gdb_send_ack, gdb_require_retransmission,
  gdb_send_data,
}
use arm_sim.Gdb.Packets.{
  Handler, handlers, entry, handler, dispatch, terminated, end_of_text, gdb_packet_analysis,
  ParserData, max_error_size, put_error, handle_error, add_character_to_error, Token, ack,
  retransmission, received, other, eof, scan,
}

infixr 4 ◌▸◌
abbrev pub ◌▸◌ : {A B : Type 0} → A → B → A × B
a ▸ b = (a, b)

module _ (P : Session → Type 0) where
  -- A handler that leaves `P` from every session with `P`.
  abbrev pub IsSound : Handler → Type 0
  IsSound h = (s : Session) (text : List ℕ) → P s → Meets P (h s text)

  abbrev pub AllSound : List (ℕ × Handler) → Type 0
  AllSound [] = Unit
  AllSound ((l, h) ∷ rest) = IsSound h × AllSound rest

  entry-IsSound :
      (hs : List (ℕ × Handler)) (letter : ℕ) → AllSound hs → Meets IsSound (entry hs letter)
  unfolding entry
  entry-IsSound [] letter a = Meets-none IsSound
  entry-IsSound ((l, h) ∷ rest) letter a =
      let later = entry-IsSound rest letter a.1 in
      Meets-if IsSound (l == letter) _ _ (λ _. Meets-some IsSound h a.0) (λ _. later)

  -- What the writes to the connection leave, and the replies.
  module _ (writes : (s : Session) (cs : List ℕ) → P s → Meets P (write_to_gdb s cs))
      (replies : (s : Session) (reply : List ℕ) → P s → Meets P (gdb_send_data s reply))
      (host : Host) (fuel : ℕ) (sound : AllSound (handlers host fuel)) where
    dispatch-Keeps : (s : Session) (text : List ℕ) → P s → Meets P (dispatch host fuel s text)
    unfolding dispatch handler
    dispatch-Keeps s [] w = Meets-none P
    dispatch-Keeps s (letter ∷ text) w =
        by (entry (handlers host fuel) letter) (entry-IsSound (handlers host fuel) letter sound)
      where
        by :
            (o : Option Handler)
            → Meets IsSound o
            → Meets P (elim o [ none ↦ gdb_send_data s [] | some h ↦ h s text ])
        by none k = replies s [] w
        by (some h) k = k.meets s text w

    pub gdb_packet_analysis-Keeps :
        (s : Session) (packet : List ℕ) → P s → Meets P (gdb_packet_analysis host fuel s packet)
    unfolding gdb_packet_analysis gdb_send_ack gdb_require_retransmission
    gdb_packet_analysis-Keeps s packet w =
        let i = end_of_text packet in
        Meets-after P (scan_hex 32 (drop (suc i) packet)) _ (λ given.
          Meets-if P (checksum 0 (drop 1 (take i packet)) == given.0) _ _
            (λ _.
              Meets-bind P (write_to_gdb s (b'+' ∷ [])) _ (writes s (b'+' ∷ []) w)
                (λ s₁ w₁. dispatch-Keeps s₁ (terminated packet) w₁))
            (λ _. writes s (b'-' ∷ []) w))

    abbrev Parsed : ParserData → Type 0
    Parsed d = P d.gdb

    put_error-Keeps : (d : ParserData) (i c : ℕ) → P d.gdb → Meets Parsed (put_error d i c)
    put_error-Keeps d i c w =
        Meets-if Parsed (ltb i max_error_size) _ _ (λ _. Meets-some Parsed _ w)
          (λ _. Meets-none Parsed)

    handle_error-Keeps : (d : ParserData) → P d.gdb → Meets Parsed (handle_error d)
    unfolding handle_error gdb_require_retransmission
    handle_error-Keeps d w =
        Meets-if Parsed (d.len == 0) _ _ (λ _. Meets-some Parsed d w)
          (λ _. Meets-bind Parsed (put_error d d.len 0) _ (put_error-Keeps d d.len 0 w) (λ d₁ w₁.
            Meets-bind Parsed (write_to_gdb d₁.gdb (b'-' ∷ [])) _ (writes d₁.gdb (b'-' ∷ []) w₁)
              (λ s ws. Meets-some Parsed _ ws)))

    add_character_to_error-Keeps :
        (d : ParserData) (c : ℕ) → P d.gdb → Meets Parsed (add_character_to_error d c)
    unfolding add_character_to_error
    add_character_to_error-Keeps d c w =
        Meets-bind Parsed (if ltb (max_error_size - 2) d.len then handle_error d else some d) _
          (Meets-if Parsed (ltb (max_error_size - 2) d.len) _ _ (λ _. handle_error-Keeps d w)
            (λ _. Meets-some Parsed d w))
          (λ d₁ w₁.
            Meets-bind Parsed (put_error d₁ d₁.len c) _ (put_error-Keeps d₁ d₁.len c w₁)
              (λ d₂ w₂. Meets-some Parsed _ w₂))

    pub scan-Keeps : (d : ParserData) (t : Token) → P d.gdb → Meets Parsed (scan host fuel d t)
    unfolding scan gdb_transmit_packet
    scan-Keeps d ack w = handle_error-Keeps d w
    scan-Keeps d retransmission w =
        Meets-bind Parsed (handle_error d) _ (handle_error-Keeps d w) (λ d₁ w₁.
          Meets-bind Parsed (write_to_gdb d₁.gdb d₁.gdb.packet) _ (writes d₁.gdb d₁.gdb.packet w₁)
            (λ s ws. Meets-some Parsed _ ws))
    scan-Keeps d (received packet) w =
        Meets-bind Parsed (handle_error d) _ (handle_error-Keeps d w) (λ d₁ w₁.
          Meets-bind Parsed (gdb_packet_analysis host fuel d₁.gdb packet) _
            (gdb_packet_analysis-Keeps d₁.gdb packet w₁) (λ s ws. Meets-some Parsed _ ws))
    scan-Keeps d (other c) w = add_character_to_error-Keeps d c w
    scan-Keeps d eof w = handle_error-Keeps d w
