-- ===== src/Mailbox/Props.antt =====
-- The properties that crates/kernel/src/arch/aarch64/drivers/gpu/props.rs declares, by their tags and by
-- the numbers of fields of their requests and responses, and the request of `init` in mod.rs.
use kados_ng.Mailbox.Buffer.{MailboxProperty, MailboxRequest, Checked, ◌>>=◌, new, encode}
use kados_ng.Base.{ℕ, List, [], ◌∷◌}

abbrev pub get_firmware_revision : MailboxProperty
get_firmware_revision = record { tag = 0x1; request_fields = 0; response_fields = 1 }

abbrev pub allocate_buffer : MailboxProperty
allocate_buffer = record { tag = 0x40001; request_fields = 1; response_fields = 2 }

abbrev pub set_physical_size : MailboxProperty
set_physical_size = record { tag = 0x48003; request_fields = 2; response_fields = 2 }

abbrev pub set_virtual_size : MailboxProperty
set_virtual_size = record { tag = 0x48004; request_fields = 2; response_fields = 2 }

abbrev pub set_depth : MailboxProperty
set_depth = record { tag = 0x48005; request_fields = 1; response_fields = 1 }

abbrev pub get_pitch : MailboxProperty
get_pitch = record { tag = 0x40008; request_fields = 0; response_fields = 1 }

abbrev pub get_physical_size : MailboxProperty
get_physical_size = record { tag = 0x40003; request_fields = 0; response_fields = 2 }

abbrev pub get_depth : MailboxProperty
get_depth = record { tag = 0x40005; request_fields = 0; response_fields = 1 }

abbrev pub set_pixel_order : MailboxProperty
set_pixel_order = record { tag = 0x48006; request_fields = 1; response_fields = 1 }

abbrev pub set_clock_state : MailboxProperty
set_clock_state = record { tag = 0x38001; request_fields = 2; response_fields = 2 }

abbrev pub get_power_state : MailboxProperty
get_power_state = record { tag = 0x20001; request_fields = 1; response_fields = 2 }

abbrev pub set_power_state : MailboxProperty
set_power_state = record { tag = 0x28001; request_fields = 2; response_fields = 2 }

abbrev framebuffer_width : ℕ
framebuffer_width = 1280

abbrev framebuffer_height : ℕ
framebuffer_height = 720

-- The request that `init` encodes before it calls the mailbox.
unfoldable pub init_request : List ℕ → Checked MailboxRequest
init_request dma = do
  r1 ← encode get_firmware_revision [] (new dma)
  r2 ← encode set_physical_size (framebuffer_width ∷ framebuffer_height ∷ []) r1
  r3 ← encode set_virtual_size (framebuffer_width ∷ framebuffer_height ∷ []) r2
  r4 ← encode set_pixel_order (0x0 ∷ []) r3
  r5 ← encode set_depth (32 ∷ []) r4
  r6 ← encode allocate_buffer (0 ∷ []) r5
  r7 ← encode get_pitch [] r6
  r8 ← encode get_physical_size [] r7
  encode get_depth [] r8
