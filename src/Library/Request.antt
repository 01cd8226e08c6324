-- ===== src/Library/Request.antt =====
-- lib/cmd_init_06.c, lib/cmd_init_0f.c: the commands that a program can ask for, and what the manual
-- of the protocol says that each puts into its message. `pccc_cmd_ReadModifyWrite` is left out.
use libpccc.Common.{
  ℕ, ◌*◌, ◌<◌, ◌^◌, ◌&&◌, Option, none, some, List, [], ◌∷◌, ◌++◌, take, ltb, leb, ◌==◌,
  if◌then◌else◌, bit_and,
}
use libpccc.Addr.{PlcAddr}
use libpccc.Addr.Element.{link16, element}
use libpccc.Addr.Plc.{plc_bytes}
use libpccc.Codec.Arrays.{FileType}
use libpccc.Library.Codes.{type_code, micrologix_code, slc500_code, cpu_code}
use libpccc.Codec.ArrayLaws.{All, InRange, bytes_of, concat_bytes}
use libpccc.Df1.State.{Platform}
use libpccc.Library.State.{Datum, Handler, to_echo, to_ptl_read, to_slc_file_info, to_link_param}
use libpccc.Library.Reply.{as_raw, as_values}
use libpccc.Library.Action.{Action}
use libpccc.Library.Send.{Host}
use libpccc.Library.Commands06.{
  pccc_cmd_echo, pccc_cmd_set_variables, pccc_cmd_set_timeout, pccc_cmd_set_naks, pccc_cmd_set_enqs,
  pccc_cmd_read_link_param, pccc_cmd_set_link_param,
}
use libpccc.Library.Typed.{
  is_mask_type, pccc_cmd_protected_typed_logical_read_3_address_fields,
  pccc_cmd_protected_typed_logical_read_2_address_fields,
  pccc_cmd_protected_typed_logical_write_3_address_fields,
  pccc_cmd_protected_typed_logical_write_2_address_fields,
  pccc_cmd_protected_typed_logical_write_with_mask,
}
use libpccc.Library.Commands0f.{
  Mode, pccc_cmd_bit_write, pccc_cmd_change_mode_micrologix1000, pccc_cmd_change_mode_slc500,
  pccc_cmd_set_cpu_mode, pccc_cmd_read_slc_file_info, pccc_cmd_disable_forces,
}

-- The file, the element and how many elements of which type, behind which pointer.
pub record Area : Type 0 where
  pub udata : Option ℕ
  pub type : FileType
  pub file : ℕ
  pub element : ℕ
  pub count : ℕ

pub data Request : Type 0 where
  ask_echo : Option ℕ → ℕ → Request
  ask_variables : ℕ → ℕ → ℕ → Request
  ask_timeout ask_naks ask_enqs : ℕ → Request
  ask_link_param : Option ℕ → Request
  ask_set_link_param : ℕ → Request
  ask_bit_write : Option PlcAddr → ℕ → ℕ → Request
  ask_micrologix_mode ask_slc500_mode ask_cpu_mode : Mode → Request
  ask_file_info : Option ℕ → ℕ → Request
  ask_disable_forces : Request
  ask_read_3 ask_write_3 : Area → ℕ → Request
  ask_read_2 ask_write_2 : Area → Request
  ask_write_mask : Area → ℕ → ℕ → Request

-- The function of the library for each.
abbrev pub run : Platform → Host → Option ℕ → ℕ → Request → Action (Unit {0})
run p h fn d (ask_echo udata n) = pccc_cmd_echo p h fn d udata n
run p h fn d (ask_variables cycles naks enqs) = pccc_cmd_set_variables p h fn d cycles naks enqs
run p h fn d (ask_timeout cycles) = pccc_cmd_set_timeout p h fn d cycles
run p h fn d (ask_naks naks) = pccc_cmd_set_naks p h fn d naks
run p h fn d (ask_enqs enqs) = pccc_cmd_set_enqs p h fn d enqs
run p h fn d (ask_link_param udata) = pccc_cmd_read_link_param p h fn d udata
run p h fn d (ask_set_link_param max) = pccc_cmd_set_link_param p h fn d max
run p h fn d (ask_bit_write addr set reset) = pccc_cmd_bit_write p h fn d addr set reset
run p h fn d (ask_micrologix_mode mode) = pccc_cmd_change_mode_micrologix1000 p h fn d mode
run p h fn d (ask_slc500_mode mode) = pccc_cmd_change_mode_slc500 p h fn d mode
run p h fn d (ask_cpu_mode mode) = pccc_cmd_set_cpu_mode p h fn d mode
run p h fn d (ask_file_info udata file) = pccc_cmd_read_slc_file_info p h fn d udata file
run p h fn d ask_disable_forces = pccc_cmd_disable_forces p h fn d
run p h fn d (ask_read_3 a sub) =
    pccc_cmd_protected_typed_logical_read_3_address_fields p h fn d a.udata a.type a.file a.element
      sub a.count
run p h fn d (ask_read_2 a) =
    pccc_cmd_protected_typed_logical_read_2_address_fields p h fn d a.udata a.type a.file a.element
      a.count
run p h fn d (ask_write_3 a sub) =
    pccc_cmd_protected_typed_logical_write_3_address_fields p h fn d a.udata a.type a.file a.element
      sub a.count
run p h fn d (ask_write_2 a) =
    pccc_cmd_protected_typed_logical_write_2_address_fields p h fn d a.udata a.type a.file a.element
      a.count
run p h fn d (ask_write_mask a mask sub) =
    pccc_cmd_protected_typed_logical_write_with_mask p h fn d a.udata mask a.type a.file a.element
      sub a.count

-- What a command notes in its message of the data that it is about: nothing, so many bytes, or
-- elements of a type, how many of them, and their bytes in the message.
pub data Shape : Type 0 where
  unsized : Shape
  sized : ℕ → Shape
  typed : FileType → ℕ → ℕ → Shape

-- A message: CMD, FNC (where CMD has one), what follows, who parses the reply into what, and what
-- is noted of the data.
pub record Wire : Type 0 where
  pub cmd : ℕ
  pub func : ℕ
  pub reply : Option Handler
  pub udata : Option ℕ
  pub body : List ℕ
  pub shape : Shape

abbrev plain_06 : ℕ → List ℕ → Option Wire
plain_06 func body =
    some
      (record { cmd = 0x06; func = func; reply = none; udata = none; body = body; shape = unsized })

abbrev plain_0f : ℕ → List ℕ → Option Wire
plain_0f func body =
    some
      (record { cmd = 0x0f; func = func; reply = none; udata = none; body = body; shape = unsized })

abbrev pub with_code : Option ℕ → ℕ → Option Wire
with_code none func = none
with_code (some code) func = plain_0f func (code ∷ [])

-- Size of the data in bytes, file, type, element.
abbrev pub area_bytes : Area → ℕ × ℕ → List ℕ
area_bytes a (size, code) =
    (size * a.count ∷ []) ++ element a.file ++ (code ∷ []) ++ element a.element

abbrev pub area_wire : Area → ℕ → Option Handler → List ℕ → Option ℕ → Option (ℕ × ℕ) → Option Wire
area_wire a func reply more none t = none
area_wire a func reply more (some q) none = none
area_wire a func reply more (some q) (some t) =
    if leb (t.0 * a.count) 236
    then some (record {
      cmd = 0x0f;
      func = func;
      reply = reply;
      udata = some q;
      body = area_bytes a t ++ more;
      shape = typed a.type a.count (t.0 * a.count);
    })
    else none

-- The elements that a write sends, from behind the pointer.
abbrev pub area_values : (ℕ → Datum) → Area → Option ℕ → List ℕ
area_values mem a none = []
area_values mem a (some q) =
    concat_bytes (bytes_of a.type) (take a.count (as_values a.type (mem q)))

abbrev echo_wire : (ℕ → Datum) → Option ℕ → ℕ → Option Wire
echo_wire mem none n = none
echo_wire mem (some q) n =
    if ltb 0 n && leb n 243
    then some (record {
      cmd = 0x06;
      func = 0x00;
      reply = some to_echo;
      udata = some q;
      body = take n (as_raw (mem q));
      shape = sized n;
    })
    else none

abbrev link_param_wire : Option ℕ → Option Wire
link_param_wire none = none
link_param_wire (some q) = some (record {
  cmd = 0x06;
  func = 0x09;
  reply = some to_link_param;
  udata = some q;
  body = 0 ∷ 0 ∷ 1 ∷ [];
  shape = unsized;
})

abbrev file_info_wire : Option ℕ → ℕ → Option Wire
file_info_wire none file = none
file_info_wire (some q) file = some (record {
  cmd = 0x0f;
  func = 0x94;
  reply = some to_slc_file_info;
  udata = some q;
  body = 0x06 ∷ 0x80 ∷ file ∷ [];
  shape = unsized;
})

abbrev pub bits_wire : ℕ → ℕ → Option (List ℕ) → Option Wire
bits_wire set reset none = none
bits_wire set reset (some addr) = plain_0f 0x02 (addr ++ (link16 set ++ link16 reset))

abbrev bit_write_wire : Option PlcAddr → ℕ → ℕ → Option Wire
bit_write_wire none set reset = none
bit_write_wire (some addr) set reset =
    if bit_and set reset == 0 then bits_wire set reset (plc_bytes addr) else none

-- What a request puts on the wire; `none` if it has to be refused.
abbrev pub wire : (ℕ → Datum) → Request → Option Wire
wire mem (ask_echo udata n) = echo_wire mem udata n
wire mem (ask_variables cycles naks enqs) = plain_06 0x02 (cycles ∷ naks ∷ enqs ∷ [])
wire mem (ask_timeout cycles) = plain_06 0x04 (cycles ∷ [])
wire mem (ask_naks naks) = plain_06 0x05 (naks ∷ [])
wire mem (ask_enqs enqs) = plain_06 0x06 (enqs ∷ [])
wire mem (ask_link_param udata) = link_param_wire udata
wire mem (ask_set_link_param max) = plain_06 0x0a (0 ∷ 0 ∷ 1 ∷ max ∷ [])
wire mem (ask_bit_write addr set reset) = bit_write_wire addr set reset
wire mem (ask_micrologix_mode mode) = with_code (micrologix_code mode) 0x3a
wire mem (ask_slc500_mode mode) = with_code (slc500_code mode) 0x80
wire mem (ask_cpu_mode mode) = with_code (cpu_code mode) 0x3a
wire mem (ask_file_info udata file) = file_info_wire udata file
wire mem ask_disable_forces = plain_0f 0x41 []
wire mem (ask_read_3 a sub) =
    if sub == 0
    then area_wire a 0xa2 (some to_ptl_read) (0 ∷ []) a.udata (type_code a.type)
    else none
wire mem (ask_read_2 a) = area_wire a 0xa1 (some to_ptl_read) [] a.udata (type_code a.type)
wire mem (ask_write_3 a sub) =
    if sub == 0
    then area_wire a 0xaa none (0 ∷ area_values mem a a.udata) a.udata (type_code a.type)
    else none
wire mem (ask_write_2 a) =
    area_wire a 0xa9 none (area_values mem a a.udata) a.udata (type_code a.type)
wire mem (ask_write_mask a mask sub) =
    if sub == 0 && is_mask_type a.type
    then area_wire a 0xab none (0 ∷ link16 mask ++ area_values mem a a.udata) a.udata
        (type_code a.type)
    else none

abbrev pub AreaInRange : Area → Type 0
AreaInRange a = (a.file < 2 ^ 16) × (a.element < 2 ^ 16) × (a.count < 2 ^ 32)

abbrev pub ValuesInRange : (ℕ → Datum) → Area → Option ℕ → Type 0
ValuesInRange mem a none = Unit
ValuesInRange mem a (some q) = All (InRange a.type) (take a.count (as_values a.type (mem q)))

-- The arguments are in the range of their C types, and the elements to write are too.
abbrev pub IsInRange : (ℕ → Datum) → Request → Type 0
IsInRange mem (ask_bit_write addr set reset) = (set < 2 ^ 16) × (reset < 2 ^ 16)
IsInRange mem (ask_read_3 a sub) = AreaInRange a
IsInRange mem (ask_read_2 a) = AreaInRange a
IsInRange mem (ask_write_3 a sub) = AreaInRange a × ValuesInRange mem a a.udata
IsInRange mem (ask_write_2 a) = AreaInRange a × ValuesInRange mem a a.udata
IsInRange mem (ask_write_mask a mask sub) =
    AreaInRange a × (mask < 2 ^ 16) × ValuesInRange mem a a.udata
IsInRange mem _ = Unit
