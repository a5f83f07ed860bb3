-- ===== src/Command/Names.antt =====
-- `as_str` and `from_str` of a command id are inverses.
use melsec_mc.Prelude.{String, ◌≡◌, ◌↔◌, refl}
use melsec_mc.Error.{ok, unknown_command_id}
use melsec_mc.Match.{are_names, match_str-ok}
use melsec_mc.Command.{
  Command, read_words, write_words, read_bits, write_bits, echo, read_random_words,
  write_random_words, write_random_bits, read_blocks, write_blocks, as_str, from_str, ids,
}

from_str-as_str : (c : Command) → from_str (as_str c) ≡ ok c
unfolding from_str as_str
from_str-as_str read_words = refl
from_str-as_str write_words = refl
from_str-as_str read_bits = refl
from_str-as_str write_bits = refl
from_str-as_str echo = refl
from_str-as_str read_random_words = refl
from_str-as_str write_random_words = refl
from_str-as_str write_random_bits = refl
from_str-as_str read_blocks = refl
from_str-as_str write_blocks = refl

from_str-ok : (s : String) (c : Command) → from_str s ≡ ok c → s ≡ as_str c
unfolding from_str as_str are_names
from_str-ok s c h = match_str-ok as_str ids (unknown_command_id s) s c refl h

-- A string parses to a command exactly if it is the command's id.
pub from_str_iff : (s : String) (c : Command) → (from_str s ≡ ok c) ↔ (s ≡ as_str c)
from_str_iff s c = (from_str-ok s c, λ e. rw e (from_str-as_str c))
