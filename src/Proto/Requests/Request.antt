-- ===== src/Proto/Requests/Request.antt =====
-- A request by the value of `wRequestAndType`, fw/v0/include/no2usb/usb_proto.h.
use Prim.Native.String.{String}
use no2usb.Base.{ℕ, ◌+◌, ◌*◌}

-- `((code << 8) | kind)`, for a `kind` of one byte.
pub record Request : Type 0 where
  pub name : String
  pub code : ℕ
  pub kind : ℕ

abbrev pub request : String → (code kind : ℕ) → Request
request name code kind = record { name = name; code = code; kind = kind }

abbrev pub value : Request → ℕ
value r = r.kind + 256 * r.code
