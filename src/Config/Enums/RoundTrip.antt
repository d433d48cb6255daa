-- ===== src/Config/Enums/RoundTrip.antt =====
-- What the database keeps of a setting of enums.rs is read back.
use dee_lip.Prelude.{◌≡◌, refl, bytes_eq}
use dee_lip.Config.Enums.{
  TransportProtocol, MediaEncryption, DtmfMode, UpdateCheckFrequency, DefaultListAction,
  RecordingFormat, Language, transport_to_str, transport_from_str, media_encryption_to_str,
  media_encryption_from_str, dtmf_mode_to_str, dtmf_mode_from_str, update_check_frequency_to_str,
  update_check_frequency_from_str, default_list_action_to_str, default_list_action_from_str,
  recording_format_to_str, recording_format_from_str, language_to_str, language_from_str, always,
  auto, auto_detect, call, daily, disabled, dtls_srtp, edit, en, enabled, inband, match_transport,
  message, mp3, never, rfc2833, sip_info, tcp, tls, udp, wav, weekly, zrtp,
}

transport_kept : (v : TransportProtocol) → transport_from_str (transport_to_str v) ≡ v
unfolding transport_from_str transport_to_str bytes_eq
transport_kept udp = refl
transport_kept tcp = refl
transport_kept tls = refl
transport_kept auto = refl

media_encryption_kept :
    (v : MediaEncryption) → media_encryption_from_str (media_encryption_to_str v) ≡ v
unfolding media_encryption_from_str media_encryption_to_str bytes_eq
media_encryption_kept match_transport = refl
media_encryption_kept disabled = refl
media_encryption_kept enabled = refl
media_encryption_kept zrtp = refl
media_encryption_kept dtls_srtp = refl

dtmf_mode_kept : (v : DtmfMode) → dtmf_mode_from_str (dtmf_mode_to_str v) ≡ v
unfolding dtmf_mode_from_str dtmf_mode_to_str bytes_eq
dtmf_mode_kept rfc2833 = refl
dtmf_mode_kept sip_info = refl
dtmf_mode_kept inband = refl
dtmf_mode_kept auto_detect = refl

update_check_frequency_kept :
    (v : UpdateCheckFrequency)
    → update_check_frequency_from_str (update_check_frequency_to_str v) ≡ v
unfolding update_check_frequency_from_str update_check_frequency_to_str bytes_eq
update_check_frequency_kept always = refl
update_check_frequency_kept daily = refl
update_check_frequency_kept weekly = refl
update_check_frequency_kept never = refl

default_list_action_kept :
    (v : DefaultListAction) → default_list_action_from_str (default_list_action_to_str v) ≡ v
unfolding default_list_action_from_str default_list_action_to_str bytes_eq
default_list_action_kept call = refl
default_list_action_kept message = refl
default_list_action_kept edit = refl

recording_format_kept :
    (v : RecordingFormat) → recording_format_from_str (recording_format_to_str v) ≡ v
unfolding recording_format_from_str recording_format_to_str bytes_eq
recording_format_kept wav = refl
recording_format_kept mp3 = refl

language_kept : (v : Language) → language_from_str (language_to_str v) ≡ v
unfolding language_from_str language_to_str bytes_eq
language_kept en = refl

-- Every value of each of the seven settings is read back from the text that is stored for it.
pub from_str-to_str :
    ((v : TransportProtocol) → transport_from_str (transport_to_str v) ≡ v)
    × ((v : MediaEncryption) → media_encryption_from_str (media_encryption_to_str v) ≡ v)
    × ((v : DtmfMode) → dtmf_mode_from_str (dtmf_mode_to_str v) ≡ v)
    × ((v : UpdateCheckFrequency)
        → update_check_frequency_from_str (update_check_frequency_to_str v) ≡ v)
    × ((v : DefaultListAction) → default_list_action_from_str (default_list_action_to_str v) ≡ v)
    × ((v : RecordingFormat) → recording_format_from_str (recording_format_to_str v) ≡ v)
    × ((v : Language) → language_from_str (language_to_str v) ≡ v)
from_str-to_str = (
  transport_kept, media_encryption_kept, dtmf_mode_kept, update_check_frequency_kept,
  default_list_action_kept, recording_format_kept, language_kept,
)
