-- ===== src/Models.antt =====
-- backend/models.py: the events that the log parser emits. A time is a number of microseconds, a
-- frequency a number of hertz, a coordinate a number of units of the fifth decimal place of a degree.
-- What every event has is in `Event`, what only its type has in `Body`.
use dmr_decrep_shahar.Prelude.{ℕ, ℤ, String, Bool, Option, List}
use dmr_decrep_shahar.Dict.{Dict}

-- `state` is "Idle", "Rest", "Active", or what the log line said
pub record LsnState : Type 0 where
  pub lsn : ℕ
  pub state : String
  pub tg : Option ℕ

pub record SiteInfoEvent : Type 0 where
  pub site : ℕ
  pub rest_lsn : ℕ
  pub rs : String

pub record ChannelStatusEvent : Type 0 where
  pub fl : ℕ
  pub ts : ℕ
  pub rs : ℕ
  pub rest_lsn : ℕ
  pub block_type : String

pub record BankCallEvent : Type 0 where
  pub bank : String
  pub flag_byte : String
  pub description : String
  pub lsn_to_tg : Dict ℕ ℕ

pub record VoiceCallEvent : Type 0 where
  pub slot : ℕ
  pub src : ℕ
  pub tgt : ℕ
  pub is_cap_plus : Bool
  pub is_txi : Bool
  pub rest_lsn : Option ℕ

pub record PreambleCsbkEvent : Type 0 where
  pub addressing : String
  pub kind : String
  pub src : ℕ
  pub tgt : ℕ
  pub rest_lsn : Option ℕ

pub record DataHeaderEvent : Type 0 where
  pub slot : ℕ
  pub addressing : String
  pub delivery : String
  pub response_requested : Bool
  pub src : ℕ
  pub tgt : ℕ

pub record IpMappingEvent : Type 0 where
  pub role : String
  pub radio_id : ℕ
  pub ip : String
  pub port : ℕ

pub record LrrpPositionEvent : Type 0 where
  pub src : Option ℕ
  pub lat : ℤ
  pub lon : ℤ

pub record LrrpRequestEvent : Type 0 where
  pub src : ℕ
  pub tgt : ℕ
  pub direction : String

pub record EncryptionEvent : Type 0 where
  pub slot : ℕ
  pub flco : String
  pub fid : String

-- the union `Event` of the source, by its discriminator `type`
pub data Body : Type 0 where
  site_info : SiteInfoEvent → Body
  channel_status : ChannelStatusEvent → Body
  lsn_status : List LsnState → Body
  bank_call : BankCallEvent → Body
  quality : String → Body
  voice_call : VoiceCallEvent → Body
  preamble_csbk : PreambleCsbkEvent → Body
  data_header : DataHeaderEvent → Body
  ip_mapping : IpMappingEvent → Body
  lrrp_position : LrrpPositionEvent → Body
  lrrp_request : LrrpRequestEvent → Body
  encryption : EncryptionEvent → Body

-- the fields of `_BaseEvent`, with the event's own
pub record Event : Type 0 where
  pub timestamp : ℕ
  pub raw_line : String
  pub schema_version : ℕ
  pub frequency : Option ℕ
  pub channel_label : Option String
  pub body : Body

-- `ev.type.value`
unfoldable pub type_name : Body → String
type_name (site_info e) = "site_info"
type_name (channel_status e) = "channel_status"
type_name (lsn_status e) = "lsn_status"
type_name (bank_call e) = "bank_call"
type_name (quality e) = "quality"
type_name (voice_call e) = "voice_call"
type_name (preamble_csbk e) = "preamble_csbk"
type_name (data_header e) = "data_header"
type_name (ip_mapping e) = "ip_mapping"
type_name (lrrp_position e) = "lrrp_position"
type_name (lrrp_request e) = "lrrp_request"
type_name (encryption e) = "encryption"
