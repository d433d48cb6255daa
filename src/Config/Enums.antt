-- ===== src/Config/Enums.antt =====
-- crates/config/src/account/enums.rs: the settings' enumerations and their texts in the database.
pub mod RoundTrip
pub mod Updates
pub mod Tests
use dee_lip.Prelude.{
  ℕ, ◌-◌, Bool, true, false, Option, none, some, List, bytes_eq, codes, leb, if◌then◌else◌,
}

pub data TransportProtocol : Type 0 where
  udp tcp tls auto : TransportProtocol

unfoldable pub transport_to_str : TransportProtocol → List ℕ
transport_to_str udp = codes "udp"
transport_to_str tcp = codes "tcp"
transport_to_str tls = codes "tls"
transport_to_str auto = codes "auto"

unfoldable pub transport_from_str : List ℕ → TransportProtocol
transport_from_str s =
    if bytes_eq s (codes "tcp")
    then tcp
    else if bytes_eq s (codes "tls")
    then tls
    else if bytes_eq s (codes "auto")
    then auto
    else udp

pub data MediaEncryption : Type 0 where
  match_transport disabled enabled zrtp dtls_srtp : MediaEncryption

unfoldable pub media_encryption_to_str : MediaEncryption → List ℕ
media_encryption_to_str match_transport = codes "match_transport"
media_encryption_to_str disabled = codes "disabled"
media_encryption_to_str enabled = codes "enabled"
media_encryption_to_str zrtp = codes "zrtp"
media_encryption_to_str dtls_srtp = codes "dtls_srtp"

unfoldable pub media_encryption_from_str : List ℕ → MediaEncryption
media_encryption_from_str s =
    if bytes_eq s (codes "disabled")
    then disabled
    else if bytes_eq s (codes "enabled")
    then enabled
    else if bytes_eq s (codes "zrtp")
    then zrtp
    else if bytes_eq s (codes "dtls_srtp")
    then dtls_srtp
    else match_transport

pub data DtmfMode : Type 0 where
  rfc2833 sip_info inband auto_detect : DtmfMode

unfoldable pub dtmf_mode_to_str : DtmfMode → List ℕ
dtmf_mode_to_str rfc2833 = codes "rfc2833"
dtmf_mode_to_str sip_info = codes "sipinfo"
dtmf_mode_to_str inband = codes "inband"
dtmf_mode_to_str auto_detect = codes "auto"

unfoldable pub dtmf_mode_from_str : List ℕ → DtmfMode
dtmf_mode_from_str s =
    if bytes_eq s (codes "sipinfo")
    then sip_info
    else if bytes_eq s (codes "inband")
    then inband
    else if bytes_eq s (codes "auto")
    then auto_detect
    else rfc2833

pub data UpdateCheckFrequency : Type 0 where
  always daily weekly never : UpdateCheckFrequency

unfoldable pub update_check_frequency_to_str : UpdateCheckFrequency → List ℕ
update_check_frequency_to_str always = codes "always"
update_check_frequency_to_str daily = codes "daily"
update_check_frequency_to_str weekly = codes "weekly"
update_check_frequency_to_str never = codes "never"

unfoldable pub update_check_frequency_from_str : List ℕ → UpdateCheckFrequency
update_check_frequency_from_str s =
    if bytes_eq s (codes "daily")
    then daily
    else if bytes_eq s (codes "weekly")
    then weekly
    else if bytes_eq s (codes "never")
    then never
    else always

pub data DefaultListAction : Type 0 where
  call message edit : DefaultListAction

unfoldable pub default_list_action_to_str : DefaultListAction → List ℕ
default_list_action_to_str call = codes "call"
default_list_action_to_str message = codes "message"
default_list_action_to_str edit = codes "edit"

unfoldable pub default_list_action_from_str : List ℕ → DefaultListAction
default_list_action_from_str s =
    if bytes_eq s (codes "message")
    then message
    else if bytes_eq s (codes "edit")
    then edit
    else call

pub data RecordingFormat : Type 0 where
  wav mp3 : RecordingFormat

unfoldable pub recording_format_to_str : RecordingFormat → List ℕ
recording_format_to_str wav = codes "wav"
recording_format_to_str mp3 = codes "mp3"

unfoldable pub recording_format_from_str : List ℕ → RecordingFormat
recording_format_from_str s = if bytes_eq s (codes "mp3") then mp3 else wav

pub data Language : Type 0 where
  en : Language

unfoldable pub language_to_str : Language → List ℕ
language_to_str en = codes "en"

unfoldable pub language_from_str : List ℕ → Language
language_from_str s = en

unfoldable pub min_interval_secs : UpdateCheckFrequency → Option ℕ
min_interval_secs always = some 0
min_interval_secs daily = some 86400
min_interval_secs weekly = some 604800
min_interval_secs never = none

abbrev due_after : Option ℕ → Option ℕ → ℕ → Bool
due_after none last now = false
due_after (some min_interval) none now = true
due_after (some min_interval) (some last) now = leb min_interval (now - last)

-- The subtraction of the code saturates, as that of ℕ does.
unfoldable pub is_due : UpdateCheckFrequency → Option ℕ → ℕ → Bool
unfolding min_interval_secs
is_due frequency last_update_check now =
    due_after (min_interval_secs frequency) last_update_check now
