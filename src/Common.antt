-- ===== src/Common.antt =====
-- common/constant.go: the constants that the program's parts share, and common/page.go.
pub mod Codes
pub mod Keys
pub mod Commands
pub mod Apart
mod Tests
use jian_yu_server_lib.Base.Int.{ℤ}
use jian_yu_server_lib.Im.Json.{Json, Fields}
use jian_yu_server_lib.Common.Keys.{QrcodeType}

-- PageResult
pub record PageResult : Type 0 where
  pub page_index : ℤ
  pub page_size : ℤ
  pub total : ℤ
  pub data_value : Json

-- NewPageResult
unfoldable pub new_page_result : ℤ → ℤ → ℤ → Json → PageResult
new_page_result page_index page_size total data_value = record {
  page_index = page_index;
  page_size = page_size;
  total = total;
  data_value = data_value;
}

-- QRCodeModel
pub record QrcodeModel : Type 0 where
  pub kind : QrcodeType
  pub data_value : Fields

-- NewQRCodeModel
unfoldable pub new_qrcode_model : QrcodeType → Fields → QrcodeModel
new_qrcode_model typ data_value = record { kind = typ; data_value = data_value }
