-- ===== src/Command.antt =====
-- src/commands.rs: the command ids.
pub mod Names
use melsec_mc.Prelude.{String, List, [], ◌∷◌, Bool, true, false}
use melsec_mc.Error.{Result, unknown_command_id}
use melsec_mc.Match.{match_str}

pub data Command : Type 0 where
  read_words : Command
  write_words : Command
  read_bits : Command
  write_bits : Command
  echo : Command
  read_random_words : Command
  write_random_words : Command
  write_random_bits : Command
  read_blocks : Command
  write_blocks : Command

unfoldable pub as_str : Command → String
as_str read_words = "read_words"
as_str write_words = "write_words"
as_str read_bits = "read_bits"
as_str write_bits = "write_bits"
as_str echo = "echo"
as_str read_random_words = "read_random_words"
as_str write_random_words = "write_random_words"
as_str write_random_bits = "write_random_bits"
as_str read_blocks = "read_blocks"
as_str write_blocks = "write_blocks"

abbrev pub ids : List (String × Command)
ids =
    ("read_words", read_words)
    ∷ ("write_words", write_words)
    ∷ ("read_bits", read_bits)
    ∷ ("write_bits", write_bits)
    ∷ ("echo", echo)
    ∷ ("read_blocks", read_blocks)
    ∷ ("write_blocks", write_blocks)
    ∷ ("read_random_words", read_random_words)
    ∷ ("write_random_words", write_random_words)
    ∷ ("write_random_bits", write_random_bits)
    ∷ []

-- `s.parse::<Command>()`
pub from_str : String → Result Command
unfolding match_str
from_str s = match_str ids (unknown_command_id s) s

is_read : Command → Bool
is_read read_words = true
is_read read_bits = true
is_read read_blocks = true
is_read _ = false

is_write : Command → Bool
is_write write_words = true
is_write write_bits = true
is_write write_blocks = true
is_write _ = false

is_block_command : Command → Bool
is_block_command read_blocks = true
is_block_command write_blocks = true
is_block_command _ = false

is_word_command : Command → Bool
is_word_command read_words = true
is_word_command write_words = true
is_word_command _ = false
