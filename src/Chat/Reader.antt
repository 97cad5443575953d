-- ===== src/Chat/Reader.antt =====
-- The reader of a session of example/chat/chat_server.cpp: `reader` and `message_parser`.
use xynet.Prelude.{ℕ, zero, suc, ◌+◌, ◌^◌, ◌≤◌, ◌<◌, ◌≡◌, refl, arith, ◌∙◌, ap, sym, ◌==◌, false}
use xynet.Prelude.{
  List, [], ◌∷◌, ◌++◌, map, length, take, drop, All, Option, none, some, Option-cases, inl, inr,
}
use xynet.Prelude.{length-append, length-drop}
use mathlib.Core.List.{map-append}
use mathlib.Core.Option
use mathlib.Core.Path.{subst}
use xynet.StreamBuffer.{StreamBuffer, size, data_view, prepare, commit, consume, Placement}
use xynet.StreamBuffer.Room.{IsValid}
use xynet.StreamBuffer.Queue.{written, commit-prepare, consume-drop, consume_fits, length-data_view}
use xynet.Chat.{Message, find, message_parser, parse_messages, read_chunk, reader}
use xynet.Chat.Lines.{
  lines_from, IsOpen, lines_from_open, lines_from_found, lines_from_again, lines_from-append,
  length-lines_from,
}

-- Each line behind the head of the session.
abbrev pub with_head : List ℕ → List (List ℕ) → List Message
with_head head lines = map (λ line. head ++ line) lines

-- The result of the reader has the finished lines as messages, and keeps the rest to be read on.
abbrev pub Parsed : List ℕ → List (List ℕ) × List ℕ → Option (StreamBuffer × List Message) → Type 0
Parsed head lines result =
    (s : StreamBuffer) × (result ≡ some (s, with_head head lines.0))
    × (data_view s ≡ lines.1)
    × IsValid s
    × IsOpen (data_view s)

message_parser_open : (head str : List ℕ) → find 10 str ≡ none → message_parser head str ≡ ([], 0)
unfolding message_parser
message_parser_open head str e = rw (e, message_parser) refl

message_parser_found :
    (head str : List ℕ) (pos : ℕ)
    → find 10 str ≡ some pos
    → message_parser head str ≡ ((head ++ take (suc pos) str) ∷ [], suc pos)
unfolding message_parser
message_parser_found head str pos e =
    let next : pos + 1 ≡ suc pos = omega arith in
    rw (e, message_parser) (ap (λ n. ((head ++ take n str) ∷ [], n)) next)

abbrev pub joined : List (List ℕ) → List ℕ
joined [] = []
joined (chunk ∷ chunks) = chunk ++ joined chunks

module _ (place : Placement) where
  parse_messages_open :
      (fuel : ℕ) (head : List ℕ) (sbuf : StreamBuffer)
      → find 10 (data_view sbuf) ≡ none
      → parse_messages place (suc fuel) head sbuf ≡ some (sbuf, [])
  unfolding parse_messages
  parse_messages_open fuel head sbuf e = rw (message_parser_open head (data_view sbuf) e) refl

  parse_messages_found :
      (fuel : ℕ) (head : List ℕ) (sbuf : StreamBuffer) (pos : ℕ)
      → find 10 (data_view sbuf) ≡ some pos
      → parse_messages place (suc fuel) head sbuf
        ≡ Option.map
            (λ r. (r.0, (head ++ take (suc pos) (data_view sbuf)) ∷ r.1))
            (parse_messages place fuel head (consume place (suc pos) sbuf))
  unfolding parse_messages
  parse_messages_found fuel head sbuf pos e =
      let advances : (suc pos == 0) ≡ false = ground arith in
      rw (message_parser_found head (data_view sbuf) pos e) (rw advances refl)

  parse_messages-lines :
      (fuel : ℕ) (head : List ℕ) (sbuf : StreamBuffer)
      → IsValid sbuf
      → length (data_view sbuf) < fuel
      → Parsed head (lines_from [] (data_view sbuf)) (parse_messages place fuel head sbuf)
  parse_messages-lines zero head sbuf v enough = absurd (omega arith)
  parse_messages-lines (suc fuel) head sbuf v enough =
      elim (Option-cases (find 10 (data_view sbuf))) [
        | inl missing ↦
            let whole = lines_from_open [] (data_view sbuf) missing in
            (
              sbuf,
              parse_messages_open fuel head sbuf missing
                  ∙ ap (λ r. some (sbuf, with_head head r.0)) (sym whole),
              sym (ap (λ r. r.1) whole),
              v,
              missing,
            )
        | inr (pos, found) ↦
            let (short, first) = lines_from_found [] (data_view sbuf) pos found in
            let (v', left) = consume-drop place (suc pos) sbuf v (
              consume_fits place (suc pos) sbuf v
                (omega (arith, short, length-data_view sbuf v))) in
            let (s, parsed, same, valid, rest) =
              parse_messages-lines fuel head (consume place (suc pos) sbuf) v'
                (omega (arith, ap length left, length-drop (suc pos) (data_view sbuf))) in
            let later : lines_from [] (data_view (consume place (suc pos) sbuf))
                ≡ lines_from [] (drop (suc pos) (data_view sbuf)) =
              ap (lines_from []) left in
            (
              s,
              parse_messages_found fuel head sbuf pos found
                  ∙ ap (Option.map (λ r. (r.0, (head ++ take (suc pos) (data_view sbuf)) ∷ r.1)))
                      parsed
                  ∙ ap
                      (λ r.
                        some (s, (head ++ take (suc pos) (data_view sbuf)) ∷ with_head head r.0))
                      later
                  ∙ ap (λ r. some (s, with_head head r.0)) (sym first),
              same ∙ ap (λ r. r.1) later ∙ sym (ap (λ r. r.1) first),
              valid,
              rest,
            )
      ]

  -- One turn, on at most as many bytes as `prepare` was asked for.
  read_chunk-lines :
      (head chunk : List ℕ) (sbuf : StreamBuffer)
      → IsValid sbuf
      → IsOpen (data_view sbuf)
      → length chunk ≤ 1024
      → size sbuf + 1024 < 2 ^ 31
      → Parsed head (lines_from (data_view sbuf) chunk) (read_chunk place head chunk sbuf)
  unfolding read_chunk
  read_chunk-lines head chunk sbuf v before few fits =
      let (v', appended) = commit-prepare 1024 chunk sbuf v few fits in
      let received = commit (length chunk) (written chunk (prepare 1024 sbuf).0) in
      subst (λ lines. Parsed head lines (read_chunk place head chunk sbuf))
        (ap (lines_from []) appended ∙ lines_from_again (data_view sbuf) chunk before)
        (parse_messages-lines (suc (length (data_view received))) head received v' (omega arith))

  reader_turn :
      (head chunk : List ℕ) (chunks : List (List ℕ)) (sbuf s : StreamBuffer) (ms : List Message)
      → read_chunk place head chunk sbuf ≡ some (s, ms)
      → reader place head (chunk ∷ chunks) sbuf
        ≡ Option.map (λ r. (r.0, ms ++ r.1)) (reader place head chunks s)
  unfolding reader
  reader_turn head chunk chunks sbuf s ms e = rw (e, reader) refl

  -- However the stream is cut into pieces of at most 1024 bytes, the reader, from a valid stream
  -- buffer that holds no newline, delivers each finished line of what the buffer holds and the
  -- stream once and in order, behind the head of the session, and keeps the unfinished rest in a
  -- valid buffer, where all these bytes and 1024 more are below 2 ^ 31; its fuel is enough.
  pub reader-lines :
      (head : List ℕ) (chunks : List (List ℕ)) (sbuf : StreamBuffer)
      → IsValid sbuf
      → IsOpen (data_view sbuf)
      → All (λ chunk. length chunk ≤ 1024) chunks
      → size sbuf + length (joined chunks) + 1024 < 2 ^ 31
      → Parsed head (lines_from (data_view sbuf) (joined chunks)) (reader place head chunks sbuf)
  unfolding reader
  reader-lines head [] sbuf v before few fits =
      let all_read : lines_from (data_view sbuf) [] ≡ ([], data_view sbuf) =
        unfold lines_from in refl in
      (
        sbuf,
        ap (λ r. some (sbuf, with_head head r.0)) (sym all_read),
        sym (ap (λ r. r.1) all_read),
        v,
        before,
      )
  reader-lines head (chunk ∷ chunks) sbuf v before (first, few) fits =
      let total = length-append chunk (joined chunks) in
      let (s, parsed, same, v', after) =
        read_chunk-lines head chunk sbuf v before first (omega arith) in
      let (s', all_parsed, same', valid, rest) = reader-lines head chunks s v' after few (
        omega (
          arith,
          total,
          length-data_view s v',
          length-data_view sbuf v,
          ap length same,
          length-lines_from (data_view sbuf) chunk,
        )) in
      let (now, unfinished) = lines_from (data_view sbuf) chunk in
      let (later, _) = lines_from (data_view s) (joined chunks) in
      let lines =
        lines_from-append (data_view sbuf) chunk (joined chunks)
        ∙ ap (λ r. (now ++ (lines_from r (joined chunks)).0, (lines_from r (joined chunks)).1))
            (sym same) in
      (
        s',
        reader_turn head chunk chunks sbuf s _ parsed
            ∙ ap (Option.map (λ r. (r.0, with_head head now ++ r.1))) all_parsed
            ∙ ap (λ ms. some (s', ms)) (sym (map-append (λ line. head ++ line) now later))
            ∙ ap (λ r. some (s', with_head head r.0)) (sym lines),
        same' ∙ ap (λ r. r.1) (sym lines),
        valid,
        rest,
      )
