-- ===== src/Stomp/Tests.antt =====
-- Runs of the parser of stomp_proto.c, and its theorems at concrete messages.
use lmq.Prelude.{◌≡◌, refl, Bool, true, not, ◌&&◌, some, List, [], ◌∷◌, ◌++◌}
use lmq.Pbuf.{Bytes, ok}
use lmq.Stomp.Text.{codes, is_eol, strtol, has_prefix}
use lmq.Stomp.Parse.{
  next_line, headers_max, connected, commands, command, parse_lines, parse_command, send,
}
use lmq.Stomp.Parse.Frame.{message}
use lmq.Stomp.Parse.Lines.{Found, parse_lines-Found}
use lmq.Stomp.Header.{read_header}
use lmq.Stomp.Length.{msg_estimlen, msg_length}
use lmq.Stomp.Length.Sound.{Measures, msg_length-Measures}

abbrev hs : List Bytes
hs = codes "destination:/queue/a" ∷ codes "content-length: 5" ∷ []

abbrev body : Bytes
body = codes "hello" ++ 0 ∷ []

abbrev text : Bytes
text = codes "SEND\ndestination:/queue/a\ncontent-length: 5\n\nhello" ++ 0 ∷ []

text-message : message (codes "SEND") hs body ≡ text
unfolding message
text-message = refl

msg_length-text : msg_length text 51 ≡ ok 51
unfolding msg_length read_header strtol
msg_length-text = refl

parse_command-send :
    parse_command text 51 (commands connected) ≡ some (command send (codes "SEND") connected)
unfolding parse_command has_prefix
parse_command-send = refl

parse_lines-Found_example : Found text 51 (next_line text 51) headers_max [] (parse_lines text 51)
parse_lines-Found_example = parse_lines-Found text 51

abbrev is_line : Bytes → Bool
is_line [] = true
is_line (c ∷ p) = not (is_eol c) && is_line p

msg_length-Measures_example : Measures text 51 (msg_estimlen text 51) (msg_length text 51)
msg_length-Measures_example = msg_length-Measures text 51
