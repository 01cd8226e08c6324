-- ===== src/Library/Typed.antt =====
-- lib/cmd_init_0f.c: the commands that read and write typed data by a logical address, with two or
-- three address fields.

use libpccc.Common.{
  ℕ, ◌*◌, ◌/◌, ◌%◌, ◌^◌, Bool, true, false, not, ◌||◌, Option, none, some, ltb, ◌==◌, take,
  if◌then◌else◌, u8,
}
use libpccc.ByteOrder.{htols}
use libpccc.Buf.{Buf, buf_append_byte, buf_append_word, ◌and_also◌}
use libpccc.Ret.{eparam}
use libpccc.Addr.{addr_encode}
use libpccc.Codec.Arrays.{FileType, stat, bin, timer, count, ctl, int, float, str, data_enc_array}
use libpccc.Df1.State.{Platform}
use libpccc.Library.State.{max_elements, msg_at, put_msg, to_ptl_read}
use libpccc.Library.Reply.{peek, as_values}
use libpccc.Library.Action.{ok, err, Action, ◌>>=◌, ◌>>◌, refuse, refuse_if, fill, fill_by, is_null}
use libpccc.Library.Command.{cmd_init}
use libpccc.Library.Send.{Host, cmd_send}

-- The `switch` of `ptl_init`: the bytes of an element in a message, and the type's code.
abbrev pub ptl_type : FileType → Option (ℕ × ℕ)
ptl_type int = some (2, 0x89)
ptl_type bin = some (2, 0x85)
ptl_type timer = some (6, 0x86)
ptl_type count = some (6, 0x87)
ptl_type ctl = some (6, 0x88)
ptl_type float = some (4, 0x8a)
ptl_type str = some (84, 0x8d)
ptl_type stat = some (2, 0x84)
ptl_type _ = none

abbrev pub is_read : ℕ → Bool
is_read func = func == 0xa1 || func == 0xa2

abbrev pub has_sub_element : ℕ → Bool
has_sub_element func = func == 0xa2 || func == 0xaa || func == 0xab

-- What `ptl_init` appends.
unfoldable pub ptl_fields : Platform → ℕ → ℕ → ℕ → ℕ → ℕ → ℕ → Buf → Buf × Bool
ptl_fields p func bytes code file element sub_element b =
    let three : Buf × Bool =
      buf_append_byte b (u8 bytes)
      and_also (λ b. addr_encode p.endian b file)
      and_also (λ b. buf_append_byte b code)
      and_also (λ b. addr_encode p.endian b element) in
    if has_sub_element func then three and_also (λ b. addr_encode p.endian b sub_element) else three

-- The fields of the message that describe the data to transfer.
abbrev pub describe : ℕ → FileType → ℕ → ℕ → ℕ → Action (Unit {0})
describe i t elements usize bytes c = (
  put_msg c i
      (record (msg_at c i) { elements = elements; usize = usize; bytes = bytes; file_type = t }),
  ok tt,
)

-- The size and the code of the type, where it has them and the data is not too long.
abbrev pub ptl_size : ℕ → Option (ℕ × ℕ) → Action (ℕ × ℕ)
ptl_size num_elements none c = refuse "File type not supported" c
ptl_size num_elements (some (size, code)) c =
    let bytes : ℕ = size * num_elements % 2 ^ 64 in
    if ltb 236 bytes
    then (record c { errstr = max_elements (236 / size) }, err eparam)
    else (c, ok (bytes, code))

abbrev pub is_mask_type : FileType → Bool
is_mask_type int = true
is_mask_type bin = true
is_mask_type stat = true
is_mask_type _ = false

module _ (p : Platform) (host : Host) (notify : Option ℕ) (dnode : ℕ) where
  unfoldable pub ptl_init : Option ℕ → ℕ → FileType → ℕ → ℕ → ℕ → ℕ → Action ℕ
  unfolding cmd_init fill ptl_fields
  ptl_init udata func t file element sub_element num_elements = do
    refuse_if (is_null udata) "Udata cannot be NULL"
    refuse_if (not (sub_element == 0)) "Nonzero subelement values not supported"
    (bytes, code) ← ptl_size num_elements (ptl_type t)
    cmd ← cmd_init p notify (if is_read func then some to_ptl_read else none) dnode udata 0x0f func
    fill cmd "ptl_init()" (ptl_fields p func bytes code file element sub_element)
    describe cmd t num_elements (host.sizeof t) bytes
    λ c. (c, ok cmd)

  -- The array behind `udata` goes into the message.
  unfoldable pub fill_array : Option ℕ → ℕ → FileType → ℕ → Action (Unit {0})
  unfolding fill_by data_enc_array
  fill_array udata i t num_elements c =
      fill_by i (data_enc_array p.endian t (take num_elements (as_values t (peek c udata)))) c

  unfoldable pub pccc_cmd_protected_typed_logical_read_3_address_fields :
      Option ℕ → FileType → ℕ → ℕ → ℕ → ℕ → Action (Unit {0})
  unfolding ptl_init cmd_send
  pccc_cmd_protected_typed_logical_read_3_address_fields udata t file element sub_element n = do
    cmd ← ptl_init udata 0xa2 t file element sub_element n
    cmd_send p host cmd

  unfoldable pub pccc_cmd_protected_typed_logical_read_2_address_fields :
      Option ℕ → FileType → ℕ → ℕ → ℕ → Action (Unit {0})
  unfolding ptl_init cmd_send
  pccc_cmd_protected_typed_logical_read_2_address_fields udata t file element n = do
    cmd ← ptl_init udata 0xa1 t file element 0 n
    cmd_send p host cmd

  unfoldable pub pccc_cmd_protected_typed_logical_write_3_address_fields :
      Option ℕ → FileType → ℕ → ℕ → ℕ → ℕ → Action (Unit {0})
  unfolding ptl_init fill_array cmd_send
  pccc_cmd_protected_typed_logical_write_3_address_fields udata t file element sub_element n = do
    cmd ← ptl_init udata 0xaa t file element sub_element n
    fill_array udata cmd t n
    cmd_send p host cmd

  unfoldable pub pccc_cmd_protected_typed_logical_write_2_address_fields :
      Option ℕ → FileType → ℕ → ℕ → ℕ → Action (Unit {0})
  unfolding ptl_init fill_array cmd_send
  pccc_cmd_protected_typed_logical_write_2_address_fields udata t file element n = do
    cmd ← ptl_init udata 0xa9 t file element 0 n
    fill_array udata cmd t n
    cmd_send p host cmd

  unfoldable pub pccc_cmd_protected_typed_logical_write_with_mask :
      Option ℕ → ℕ → FileType → ℕ → ℕ → ℕ → ℕ → Action (Unit {0})
  unfolding ptl_init fill fill_array cmd_send
  pccc_cmd_protected_typed_logical_write_with_mask udata mask t file element sub_element n = do
    refuse_if (not (is_mask_type t)) "File type not supported"
    cmd ← ptl_init udata 0xab t file element sub_element n
    fill cmd "pccc_cmd_ProtectedTypedLogicalWriteWithMask()"
        (λ b. buf_append_word p.endian b (htols p.endian mask))
    fill_array udata cmd t n
    cmd_send p host cmd
