-- ===== src/Library/Errors.antt =====
-- lib/pccc.c, pccc_errstr: the text of an error. The bytes that are written to the user's buffer are
-- left out: a text is its first part and what `errstr` adds to it.
use Prim.Native.String.{String}
use libpccc.Common.{Option, none, some}
use libpccc.Ret.{
  Ret, success, wready, enocon, elink, eparam, efatal, eoverflow, ecmd_nodeliver, ecmd_timeout,
  ecmd_reply, ecmd_nobuf,
}
use libpccc.Library.State.{Pccc, Text, no_text}

-- The `switch`.
abbrev pub err_text : Ret → String
err_text success = "Success"
err_text wready = "Success, data pending to be written to link layer"
err_text enocon = "Supplied connection pointer was invalid(NULL)"
err_text ecmd_nodeliver = "Link layer service could not deliver command"
err_text ecmd_timeout = "Timed out awaiting a reply"
err_text ecmd_reply = "Reply contained an error"
err_text ecmd_nobuf = "No message buffers available to process command"
err_text elink = "Link layer service connection error"
err_text eparam = "Invalid parameter specified"
err_text efatal = "Fatal error"
err_text eoverflow = "Buffer overflow"

-- Whether `errstr` holds a text, which goes behind the first part.
abbrev pub added_text : Text → Option Text
added_text no_text = none
added_text text = some text

-- The text is given once.
unfoldable pub pccc_errstr : Ret → Pccc → Pccc × (String × Option Text)
pccc_errstr err c = (record c { errstr = no_text }, (err_text err, added_text c.errstr))
