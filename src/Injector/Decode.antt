-- ===== src/Injector/Decode.antt =====
-- `DecodeIoInstruction` of LptToUsbAdapter/LptPatchInjector/LptPatchInjector.c, with logging off.
use lpt_to_usb_adapter.Base.{
  ℕ, Bool, true, false, ◌&&◌, Option, none, some, List, get_or, ◌==◌, if◌then◌else◌, u16,
}

-- What a decoded instruction is: `used_port`, `used_io_size_bits`, `is_direction_output`,
-- `instruction_size`.
pub record IoInstruction : Type 0 where
  pub port : ℕ
  pub io_size : ℕ
  pub out_direction : Bool
  pub instruction_size : ℕ

-- `FILL_INSTRUCTION_DATA`
abbrev fill_instruction_data : ℕ → ℕ → ℕ → Bool → Option IoInstruction
fill_instruction_data instruction_size port io_size out_direction = some (record {
  port = port;
  io_size = io_size;
  out_direction = out_direction;
  instruction_size = instruction_size;
})

-- `CHECK_OPERATION_2B … else`
abbrev check_operation_2b :
    List ℕ → ℕ → ℕ → ℕ → ℕ → ℕ → Bool → Option IoInstruction → Option IoInstruction
check_operation_2b inst_buf byte0 byte1 instruction_size port io_size out_direction otherwise =
    if (get_or inst_buf 0 0 == byte0) && (get_or inst_buf 1 0 == byte1)
    then fill_instruction_data instruction_size port io_size out_direction
    else otherwise

-- `CHECK_OPERATION_1B … else`
abbrev check_operation_1b :
    List ℕ → ℕ → ℕ → ℕ → ℕ → Bool → Option IoInstruction → Option IoInstruction
check_operation_1b inst_buf byte0 instruction_size port io_size out_direction otherwise =
    if get_or inst_buf 0 0 == byte0
    then fill_instruction_data instruction_size port io_size out_direction
    else otherwise

-- `DecodeIoInstruction`
unfoldable pub decode_io_instruction : List ℕ → ℕ → Option IoInstruction
decode_io_instruction inst_buf edx =
    let port_dx = u16 edx in
    let byte1 = get_or inst_buf 1 0 in
    let byte2 = get_or inst_buf 2 0 in
    check_operation_2b inst_buf 0x66 0xe5 3 byte2 16 false (
      check_operation_2b inst_buf 0x66 0xed 2 port_dx 16 false (
        check_operation_2b inst_buf 0x66 0xe7 3 byte2 16 true (
          check_operation_2b inst_buf 0x66 0xef 2 port_dx 16 true (
            check_operation_1b inst_buf 0xe4 2 byte1 8 false (
              check_operation_1b inst_buf 0xe5 2 byte1 32 false (
                check_operation_1b inst_buf 0xec 1 port_dx 8 false (
                  check_operation_1b inst_buf 0xed 1 port_dx 32 false (
                    check_operation_1b inst_buf 0xe6 2 byte1 8 true (
                      check_operation_1b inst_buf 0xe7 2 byte1 32 true (
                        check_operation_1b inst_buf 0xee 1 port_dx 8 true
                          (check_operation_1b inst_buf 0xef 1 port_dx 32 true none)))))))))))
