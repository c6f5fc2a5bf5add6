-- ===== src/Access/Texts.antt =====
-- What LptToUsbAdapter/LptPortAccessDemo/LptPortAccessDemo.c prints.
use lpt_to_usb_adapter.Base.{ℕ, List, [], ◌∷◌}

abbrev pub data_title : List ℕ
data_title =
    b'D' ∷ b'7' ∷ 32 ∷ b'D' ∷ b'6' ∷ 32 ∷ b'D' ∷ b'5' ∷ 32 ∷ b'D' ∷ b'4' ∷ 32 ∷ b'D' ∷ b'3' ∷ 32
    ∷ b'D' ∷ b'2' ∷ 32 ∷ b'D' ∷ b'1' ∷ 32 ∷ b'D' ∷ b'0' ∷ 10 ∷ []

abbrev pub status_title : List ℕ
status_title =
    b'B' ∷ b'U' ∷ b'S' ∷ b'Y' ∷ 32 ∷ b'A' ∷ b'C' ∷ b'K' ∷ b'#' ∷ 32 ∷ b'P' ∷ b'E' ∷ b'R' ∷ b'R'
    ∷ b'O' ∷ b'R' ∷ 32 ∷ b'S' ∷ b'E' ∷ b'L' ∷ b'E' ∷ b'C' ∷ b'T' ∷ 32 ∷ b'F' ∷ b'A' ∷ b'U' ∷ b'L'
    ∷ b'T' ∷ b'#' ∷ 10 ∷ []

abbrev pub data_prompt : List ℕ
data_prompt =
    b'E' ∷ b'n' ∷ b't' ∷ b'e' ∷ b'r' ∷ 32 ∷ b'n' ∷ b'e' ∷ b'w' ∷ 32 ∷ b'v' ∷ b'a' ∷ b'l' ∷ b'u'
    ∷ b'e' ∷ 32 ∷ b'f' ∷ b'o' ∷ b'r' ∷ 32 ∷ b'D' ∷ b'A' ∷ b'T' ∷ b'A' ∷ b':' ∷ 32 ∷ []

abbrev pub control_prompt : List ℕ
control_prompt =
    b'E' ∷ b'n' ∷ b't' ∷ b'e' ∷ b'r' ∷ 32 ∷ b'n' ∷ b'e' ∷ b'w' ∷ 32 ∷ b'v' ∷ b'a' ∷ b'l' ∷ b'u'
    ∷ b'e' ∷ 32 ∷ b'f' ∷ b'o' ∷ b'r' ∷ 32 ∷ b'P' ∷ b'C' ∷ b'O' ∷ b'N' ∷ 32 ∷ b'(' ∷ b'S' ∷ b'E'
    ∷ b'L' ∷ b'E' ∷ b'C' ∷ b'T' ∷ b'I' ∷ b'N' ∷ b'#' ∷ b',' ∷ 32 ∷ b'I' ∷ b'N' ∷ b'I' ∷ b'T' ∷ b'#'
    ∷ b',' ∷ 32 ∷ b'A' ∷ b'U' ∷ b'T' ∷ b'O' ∷ b'F' ∷ b'D' ∷ b'#' ∷ b',' ∷ 32 ∷ b'S' ∷ b'T' ∷ b'R'
    ∷ b'O' ∷ b'B' ∷ b'E' ∷ b'#' ∷ b')' ∷ b':' ∷ 32 ∷ []

abbrev pub invalid_input : List ℕ
invalid_input =
    b'I' ∷ b'n' ∷ b'v' ∷ b'a' ∷ b'l' ∷ b'i' ∷ b'd' ∷ 32 ∷ b'i' ∷ b'n' ∷ b'p' ∷ b'u' ∷ b't' ∷ b'!'
    ∷ 10 ∷ []

abbrev pub pcon_title : List ℕ
pcon_title = b'P' ∷ b'C' ∷ b'O' ∷ b'N' ∷ b':' ∷ 32 ∷ []

abbrev pub invalid_selection : List ℕ
invalid_selection =
    b'I' ∷ b'n' ∷ b'v' ∷ b'a' ∷ b'l' ∷ b'i' ∷ b'd' ∷ 32 ∷ b's' ∷ b'e' ∷ b'l' ∷ b'e' ∷ b'c' ∷ b't'
    ∷ b'i' ∷ b'o' ∷ b'n' ∷ b'!' ∷ []

abbrev pub end_line : List ℕ
end_line = b'E' ∷ b'n' ∷ b'd' ∷ b'.' ∷ 10 ∷ []

abbrev pub ioperm_prompt : List ℕ
ioperm_prompt =
    b'E' ∷ b'x' ∷ b'e' ∷ b'c' ∷ b'u' ∷ b't' ∷ b'e' ∷ 32 ∷ b'i' ∷ b'o' ∷ b'p' ∷ b'e' ∷ b'r' ∷ b'm'
    ∷ b'?' ∷ 32 ∷ b'(' ∷ b'y' ∷ b'/' ∷ b'n' ∷ b')' ∷ b':' ∷ 32 ∷ []

abbrev pub ioperm_failed : List ℕ
ioperm_failed =
    b'E' ∷ b'r' ∷ b'r' ∷ b'o' ∷ b'r' ∷ 32 ∷ b'p' ∷ b'e' ∷ b'r' ∷ b'f' ∷ b'o' ∷ b'r' ∷ b'm' ∷ b'i'
    ∷ b'n' ∷ b'g' ∷ 32 ∷ b'i' ∷ b'o' ∷ b'p' ∷ b'e' ∷ b'r' ∷ b'm' ∷ 10 ∷ []

abbrev pub menu : List ℕ
menu =
    b'C' ∷ b'h' ∷ b'o' ∷ b'o' ∷ b's' ∷ b'e' ∷ 32 ∷ b'm' ∷ b'o' ∷ b'd' ∷ b'e' ∷ b':' ∷ 10 ∷ b'1' ∷ 32
    ∷ b'-' ∷ 32 ∷ b'm' ∷ b'o' ∷ b'n' ∷ b'i' ∷ b't' ∷ b'o' ∷ b'r' ∷ 32 ∷ b'D' ∷ b'A' ∷ b'T' ∷ b'A'
    ∷ 10 ∷ b'2' ∷ 32 ∷ b'-' ∷ 32 ∷ b'w' ∷ b'r' ∷ b'i' ∷ b't' ∷ b'e' ∷ 32 ∷ b'D' ∷ b'A' ∷ b'T' ∷ b'A'
    ∷ 10 ∷ b'3' ∷ 32 ∷ b'-' ∷ 32 ∷ b'm' ∷ b'o' ∷ b'n' ∷ b'i' ∷ b't' ∷ b'o' ∷ b'r' ∷ 32 ∷ b'P' ∷ b'S'
    ∷ b'T' ∷ b'A' ∷ b'T' ∷ 10 ∷ b'4' ∷ 32 ∷ b'-' ∷ 32 ∷ b'w' ∷ b'r' ∷ b'i' ∷ b't' ∷ b'e' ∷ 32 ∷ b'P'
    ∷ b'C' ∷ b'O' ∷ b'N' ∷ 10 ∷ b'5' ∷ 32 ∷ b'-' ∷ 32 ∷ b't' ∷ b'e' ∷ b's' ∷ b't' ∷ 32 ∷ b'i' ∷ b'n'
    ∷ b't' ∷ b'e' ∷ b'r' ∷ b'c' ∷ b'e' ∷ b'p' ∷ b't' ∷ 32 ∷ b't' ∷ b'i' ∷ b'm' ∷ b'e' ∷ 10 ∷ []

abbrev pub bypass_name : List ℕ
bypass_name =
    b'B' ∷ b'y' ∷ b'p' ∷ b'a' ∷ b's' ∷ b's' ∷ 32 ∷ 32 ∷ 32 ∷ 32 ∷ 32 ∷ 32 ∷ 32 ∷ 32 ∷ 32 ∷ 32 ∷ 32
    ∷ 32 ∷ 32 ∷ 32 ∷ 32 ∷ 32 ∷ []

abbrev pub data_write_name : List ℕ
data_write_name =
    b'D' ∷ b'a' ∷ b't' ∷ b'a' ∷ 32 ∷ b'w' ∷ b'r' ∷ b'i' ∷ b't' ∷ b'e' ∷ 32 ∷ 32 ∷ 32 ∷ 32 ∷ 32 ∷ 32
    ∷ 32 ∷ 32 ∷ 32 ∷ 32 ∷ 32 ∷ 32 ∷ []

abbrev pub data_read_name : List ℕ
data_read_name =
    b'D' ∷ b'a' ∷ b't' ∷ b'a' ∷ 32 ∷ b'r' ∷ b'e' ∷ b'a' ∷ b'd' ∷ 32 ∷ 32 ∷ 32 ∷ 32 ∷ 32 ∷ 32 ∷ 32
    ∷ 32 ∷ 32 ∷ 32 ∷ 32 ∷ 32 ∷ 32 ∷ []

abbrev pub status_write_name : List ℕ
status_write_name =
    b'S' ∷ b't' ∷ b'a' ∷ b't' ∷ b'u' ∷ b's' ∷ 32 ∷ b'w' ∷ b'r' ∷ b'i' ∷ b't' ∷ b'e' ∷ 32 ∷ 32 ∷ 32
    ∷ 32 ∷ 32 ∷ 32 ∷ 32 ∷ 32 ∷ 32 ∷ 32 ∷ []

abbrev pub address_write_name : List ℕ
address_write_name =
    b'A' ∷ b'd' ∷ b'd' ∷ b'r' ∷ b'e' ∷ b's' ∷ b's' ∷ 32 ∷ b'+' ∷ 32 ∷ b's' ∷ b't' ∷ b'r' ∷ b'o'
    ∷ b'b' ∷ b'e' ∷ 32 ∷ b'w' ∷ b'r' ∷ b'i' ∷ b't' ∷ b'e' ∷ []

abbrev pub address_read_name : List ℕ
address_read_name =
    b'A' ∷ b'd' ∷ b'd' ∷ b'r' ∷ b'e' ∷ b's' ∷ b's' ∷ 32 ∷ b'+' ∷ 32 ∷ b's' ∷ b't' ∷ b'r' ∷ b'o'
    ∷ b'b' ∷ b'e' ∷ 32 ∷ b'r' ∷ b'e' ∷ b'a' ∷ b'd' ∷ 32 ∷ []

abbrev pub strobe_write_name : List ℕ
strobe_write_name =
    b'D' ∷ b'a' ∷ b't' ∷ b'a' ∷ 32 ∷ b'+' ∷ 32 ∷ b's' ∷ b't' ∷ b'r' ∷ b'o' ∷ b'b' ∷ b'e' ∷ 32 ∷ b'w'
    ∷ b'r' ∷ b'i' ∷ b't' ∷ b'e' ∷ 32 ∷ 32 ∷ 32 ∷ []

abbrev pub strobe_read_name : List ℕ
strobe_read_name =
    b'D' ∷ b'a' ∷ b't' ∷ b'a' ∷ 32 ∷ b'+' ∷ 32 ∷ b's' ∷ b't' ∷ b'r' ∷ b'o' ∷ b'b' ∷ b'e' ∷ 32 ∷ b'r'
    ∷ b'e' ∷ b'a' ∷ b'd' ∷ 32 ∷ 32 ∷ 32 ∷ 32 ∷ []

abbrev pub nop_name : List ℕ
nop_name =
    b'N' ∷ b'O' ∷ b'P' ∷ 32 ∷ 32 ∷ 32 ∷ 32 ∷ 32 ∷ 32 ∷ 32 ∷ 32 ∷ 32 ∷ 32 ∷ 32 ∷ 32 ∷ 32 ∷ 32 ∷ 32
    ∷ 32 ∷ 32 ∷ 32 ∷ 32 ∷ []
