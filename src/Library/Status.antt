-- ===== src/Library/Status.antt =====
-- lib/sts.c: the texts that describe the STS and EXT STS codes of a reply.
use Prim.Native.String.{String}
use libpccc.Common.{
  ℕ, Bool, ◌||◌, List, [], ◌∷◌, true, false, Option, none, some, ◌==◌, if◌then◌else◌,
}
use libpccc.Buf.{Buf}
use libpccc.Library.State.{
  Pccc, Text, plain, undefined_sts, unexpected_ext, undefined_ext, file_open, program_owner,
  node_error,
}
use libpccc.Library.Message.{
  msg_get_src, msg_get_cmd, msg_get_sts, msg_get_ext_sts, msg_get_owner_node,
}

-- The `case` of a `switch` over constants, each with its text.
unfoldable pub case_of : List (ℕ × String) → ℕ → Option String
case_of [] code = none
case_of ((value, text) ∷ cases) code =
    let rest : Option String = case_of cases code in if code == value then some text else rest

unfoldable pub ext_sts_1a : Buf → Text
unfolding msg_get_owner_node
ext_sts_1a msg = elim (msg_get_owner_node msg) [
  | some on ↦ file_open on
  | none ↦ plain "File is open; another node owns it"
]

unfoldable pub ext_sts_1b : Buf → Text
unfolding msg_get_owner_node
ext_sts_1b msg = elim (msg_get_owner_node msg) [
  | some on ↦ program_owner on
  | none ↦ plain "Another node is the program owner"
]

-- The `switch` of `ext_sts_dh` over its constant texts.
abbrev pub dh_texts : List (ℕ × String)
dh_texts =
    (0x01, "A field has an illegal value")
    ∷ (0x02, "Less levels specified in address than minimum for any address")
    ∷ (0x03, "More levels specified in address than system supports")
    ∷ (0x04, "Symbol not found")
    ∷ (0x05, "Symbol is of improper format")
    ∷ (0x06, "Address doesn't point to something usable")
    ∷ (0x07, "File is wrong size")
    ∷ (0x08, "Cannot complete request, situation has changed since start of the command")
    ∷ (0x09, "Data or file is too large")
    ∷ (0x0a, "Transaction size plus word address is too large")
    ∷ (0x0b, "Access denied, improper privilege")
    ∷ (0x0c, "Condition cannot be generated, resource is not available")
    ∷ (0x0d, "Condition already exists, resource is already available")
    ∷ (0x0e, "Command cannot be executed")
    ∷ (0x0f, "Histogram overflow")
    ∷ (0x10, "No access")
    ∷ (0x11, "Illegal data type")
    ∷ (0x12, "Invalid parameter or invalid data")
    ∷ (0x13, "Address reference exists to deleted area")
    ∷ (0x14, "Command execution failure for unknown reason")
    ∷ (0x15, "Data conversion errorr")
    ∷ (0x16, "Scanner not able to communicate with 1771 rack adapter")
    ∷ (0x17, "Type mismatch")
    ∷ (0x18, "1771 module response was not valid")
    ∷ (0x19, "Duplicate label")
    ∷ (0x1e, "Data table element protection violation")
    ∷ (0x1f, "Temporary internal problem")
    ∷ (0x22, "Remote rack fault")
    ∷ (0x23, "Timeout")
    ∷ (0x24, "Unknown error")
    ∷ []

unfoldable pub ext_sts_dh : Buf → ℕ → Text
unfolding case_of ext_sts_1a ext_sts_1b
ext_sts_dh msg es =
    if es == 0x1a
    then ext_sts_1a msg
    else if es == 0x1b
    then ext_sts_1b msg
    else elim (case_of dh_texts es) [ some text ↦ plain text | none ↦ undefined_ext es 0x0f ]

-- The `switch` of `ext_sts_485` over its constant texts.
abbrev pub dh485_texts : List (ℕ × String)
dh485_texts =
    (0x07, "Insufficient memory module size")
    ∷ (0x0b, "Access denied, priviledge violation")
    ∷ (0x0c, "Resouce not available or can not do")
    ∷ (0x0e, "CMD can not be executed")
    ∷ (0x12, "Invalid parameter")
    ∷ (0x14, "Failure during processing")
    ∷ (0x19, "Duplicate label")
    ∷ []

unfoldable pub ext_sts_485 : Buf → ℕ → ℕ → Text
unfolding case_of ext_sts_1a ext_sts_1b
ext_sts_485 msg es cmd =
    if es == 0x1a
    then ext_sts_1a msg
    else if es == 0x1b
    then ext_sts_1b msg
    else elim (case_of dh485_texts es) [ some text ↦ plain text | none ↦ undefined_ext es cmd ]

unfoldable pub ext_sts : Buf → Text
unfolding msg_get_cmd msg_get_ext_sts ext_sts_dh ext_sts_485
ext_sts msg =
    let cmd : ℕ = msg_get_cmd msg in
    let es : ℕ = msg_get_ext_sts msg in
    let other : Text =
      if cmd == 0x0b || cmd == 0x1a || cmd == 0x1b
      then ext_sts_485 msg es cmd
      else unexpected_ext cmd es in
    if cmd == 0x0f then ext_sts_dh msg es else other

-- The constant texts of the `switch` of `sts_check`.
abbrev pub sts_texts : List (ℕ × String)
sts_texts =
    (0x01, "Destination node is out of buffer space")
    ∷ (0x02, "Cannot guarantee delivery, link layer")
    ∷ (0x03, "Duplicate token holder detected")
    ∷ (0x04, "Local port is disconnected")
    ∷ (0x05, "Application layer timed out waiting for response")
    ∷ (0x06, "Duplicate node detected")
    ∷ (0x07, "Station is offline")
    ∷ (0x08, "Hardware fault")
    ∷ (0x10, "Illegal command or format")
    ∷ (0x20, "Host has a problem and will not communicate")
    ∷ (0x30, "Remote node host is missing, disconnected, or shut down")
    ∷ (0x40, "Host could not complete function due to hardware fault")
    ∷ (0x50, "Addressing problem or memory protect rungs")
    ∷ (0x60, "Function not allowed due to command protection selection")
    ∷ (0x70, "Processor is in program mode")
    ∷ (0x80, "Compatibility mode file missing or communication zone problem")
    ∷ (0x90, "Remote node cannot buffer command")
    ∷ (0xa0, "Wait ACK")
    ∷ (0xc0, "Wait ACK")
    ∷ (0xb0, "Remote node problem due to download")
    ∷ []

-- The cases that set `remote`.
unfoldable pub is_remote : ℕ → Bool
is_remote sts =
    sts == 0x10
    || sts == 0x20
    || sts == 0x30
    || sts == 0x40
    || sts == 0x50
    || sts == 0x60
    || sts == 0x70
    || sts == 0x80
    || sts == 0x90
    || sts == 0xa0
    || sts == 0xc0
    || sts == 0xb0
    || sts == 0xf0

-- What the `switch` leaves in `str`.
unfoldable pub sts_str : Buf → ℕ → Text
unfolding case_of ext_sts
sts_str msg sts =
    if sts == 0xf0
    then ext_sts msg
    else elim (case_of sts_texts sts) [ some text ↦ plain text | none ↦ undefined_sts sts ]

-- Whether the code is an error, which is then described in the connection's `errstr`.
unfoldable pub sts_check : Pccc → Buf → Pccc × Bool
unfolding msg_get_sts is_remote msg_get_src sts_str
sts_check con msg =
    let sts : ℕ = msg_get_sts msg in
    let text : Text = node_error (is_remote sts) (msg_get_src msg) (sts_str msg sts) in
    if sts == 0 then (con, false) else (record con { errstr = text }, true)
