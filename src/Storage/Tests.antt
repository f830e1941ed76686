-- ===== src/Storage/Tests.antt =====
-- Runs of the message buffer and of the settings over a flash that keeps its last write.
use meshtastenstein_rs.Base.{
  ℕ, ◌≡◌, refl, true, false, Option, none, some, List, [], ◌∷◌, ◌==◌, ==_refl, if◌then◌else◌,
  length, take, drop, replicate, length-replicate, arith,
}
use meshtastenstein_rs.Packet.{RadioFrame, max_lora_payload_len}
use meshtastenstein_rs.Packet.Frame.{IsFrame}
use meshtastenstein_rs.Router.{DeviceRole}
use meshtastenstein_rs.Radio.{bw_code_to_hz, bw_hz_to_code}
use meshtastenstein_rs.Radio.Preset.{ModemPreset}
use meshtastenstein_rs.Channels.{ChannelRole, default_primary, present}
use meshtastenstein_rs.Device.{DeviceState}
use meshtastenstein_rs.Persistence.Settings.{Conversions}
use meshtastenstein_rs.Persistence.Table.{IsName, IsSaveableChannel, HasChannelCodes}
use meshtastenstein_rs.Persistence.Restart.{IsSaveable, SameSettings}
use meshtastenstein_rs.Storage.{StorageError, Flash, NvsStorage, add, pop, clear}
use meshtastenstein_rs.Storage.Fifo.{IsRingBuffer, queue, push_bounded, queue-add}
use meshtastenstein_rs.Storage.Drain.{queue-pop, queue-clear}
use meshtastenstein_rs.Storage.Blobs.{
  save_state, load_state, save_config, save_blob, erase_sector, write_sector,
}
use meshtastenstein_rs.Storage.Saved.{ReadsBack, load_state-save_state}

abbrev Cell : Type 0
Cell = ℕ × List ℕ

abbrev read_cell : ℕ → ℕ → Cell → Option (List ℕ)
read_cell off n c = if c.0 == off then some c.1 else none

abbrev last_write : Flash Cell
last_write = record {
  read = read_cell;
  write = λ off bytes c. ((off, bytes), true);
  erase = λ from to c. ((0, []), true);
}

last_write-ReadsBack : ReadsBack last_write
last_write-ReadsBack = λ from to bytes f erased written. ground (arith, ==_refl from)

abbrev blank : NvsStorage Cell
blank = record {
  head = 0;
  tail = 0;
  count = 0;
  slots = [];
  flash = (0, []);
  base_offset = 0;
  dirty = false;
}

abbrev start : NvsStorage Cell
start = clear last_write blank

abbrev frame : RadioFrame
frame = record { bytes = replicate max_lora_payload_len 7; len = 20 }

frame-IsFrame : IsFrame frame
frame-IsFrame = record {
  array = length-replicate {A = ℕ} max_lora_payload_len 7;
  fits = omega arith;
}

abbrev holding : NvsStorage Cell
holding = add last_write frame start

holding-IsRingBuffer : IsRingBuffer holding
holding-IsRingBuffer =
    (queue-add last_write frame start frame-IsFrame (queue-clear last_write blank).0).0

queue-add_example :
    IsRingBuffer (add last_write frame holding)
    × (queue (add last_write frame holding)
        ≡ push_bounded (queue holding) (take frame.len frame.bytes))
queue-add_example = queue-add last_write frame holding frame-IsFrame holding-IsRingBuffer

queue-pop_example :
    IsRingBuffer (pop last_write holding).0
    × (queue (pop last_write holding).0 ≡ drop 1 (queue holding))
    × ((pop last_write holding).1
        ≡ (if length (queue holding) == 0 then some StorageError.empty else none))
queue-pop_example = queue-pop last_write holding holding-IsRingBuffer

abbrev preset_back : ℕ → Option ModemPreset
preset_back code = some ModemPreset.long_fast

abbrev role_back : ℕ → Option DeviceRole
role_back code = some DeviceRole.client

abbrev channel_code : ChannelRole → ℕ
channel_code ChannelRole.disabled = 0
channel_code ChannelRole.primary = 1
channel_code ChannelRole.secondary = 2

abbrev conv : Conversions
conv = record {
  is_utf8 = λ bytes. true;
  role_code = λ r. 0;
  role_of = role_back;
  default_role = DeviceRole.client;
  preset_code = λ m. 0;
  preset_of = preset_back;
  channel_role_code = channel_code;
}

abbrev device : DeviceState
device = record {
  my_node_num = 7;
  mac = [];
  short_name = 65 ∷ [];
  long_name = 65 ∷ 66 ∷ [];
  hw_model = 43;
  role = DeviceRole.client;
  modem_preset = ModemPreset.long_fast;
  region = 3;
  use_preset = true;
  custom_sf = 11;
  custom_bw_hz = 250000;
  custom_cr = 5;
  channel_num = 20;
  default_hops = 4;
  tx_enabled = true;
  config_ok_to_mqtt = true;
  channels = some default_primary ∷ none ∷ none ∷ none ∷ none ∷ none ∷ none ∷ none ∷ [];
  packet_counter = 1;
}

abbrev unset : DeviceState
unset = record device { long_name = []; short_name = []; region = 0; default_hops = 3 }

device-IsSaveable : IsSaveable conv device
unfolding IsSaveable IsName HasChannelCodes IsSaveableChannel present bw_code_to_hz bw_hz_to_code
device-IsSaveable = (
  (omega arith, omega arith, refl),
  (omega arith, omega arith, refl),
  refl,
  refl,
  refl,
  omega arith,
  omega arith,
  λ e. absurd (omega (arith, e)),
  (refl, refl),
  refl,
  (refl, tt),
  ((omega arith, omega arith, refl), tt),
)

saved_well : (save_state last_write conv device blank).1 ≡ none
unfolding save_state save_config save_blob erase_sector write_sector
saved_well = refl

load_state-save_state_example :
    SameSettings device
      (load_state last_write conv (save_state last_write conv device blank).0 unset)
load_state-save_state_example =
    load_state-save_state last_write conv device unset blank last_write-ReadsBack device-IsSaveable
      refl saved_well
