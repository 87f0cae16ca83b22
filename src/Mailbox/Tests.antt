-- ===== src/Mailbox/Tests.antt =====
-- Concrete messages, requests and replies.
use kados_ng.Mailbox.Message
use kados_ng.Mailbox.Message.{tags_arm_to_vc, frame_buffer, number, decode-encode}
use kados_ng.Mailbox.Call.{call, polls, ok_response, failed, call_answered}
use kados_ng.Mailbox.Buffer.{
  done, ◌>>=◌, new, finish, decode, int, encode, encode_request, add_placeholders,
}
use kados_ng.Mailbox.Request.{Entry, requests, replies, encode_all}
use kados_ng.Mailbox.Reply.{find, size_of_request, decode-encode_all}
use kados_ng.Mailbox.Props.{get_firmware_revision, get_physical_size, init_request}
use kados_ng.Base.{
  ℕ, ◌+◌, ◌≡◌, refl, arith, List, [], ◌∷◌, ◌++◌, some, replicate, inl, if◌then◌else◌, ◌==◌, bit_and,
}
use kados_ng.Arch.{hhdm_physical_offset}

abbrev asked : List Entry
asked =
    record {
      property = get_firmware_revision;
      fields = [];
      code = 0x8000_0004;
      answer = 0x5e_ed ∷ [];
    }
    ∷ record {
      property = get_physical_size;
      fields = [];
      code = 0x8000_0008;
      answer = 1280 ∷ 720 ∷ [];
    }
    ∷ []

abbrev stale : List ℕ
stale = 7 ∷ 7 ∷ 7 ∷ 7 ∷ 7 ∷ 7 ∷ 7 ∷ 7 ∷ 7 ∷ 7 ∷ 7 ∷ 7 ∷ []

decode-encode_all_example :
    (rest : List ℕ) × ((encode_all asked (new (7 ∷ 7 ∷ stale)) >>= finish)
      ≡ done (size_of_request asked ∷ 0 ∷ (requests asked ++ 0 ∷ rest)))
    × (decode get_physical_size (size_of_request asked ∷ 0x8000_0000 ∷ (replies asked ++ 0 ∷ rest))
        ≡ done (find get_physical_size asked))
decode-encode_all_example =
    decode-encode_all get_physical_size asked 7 7 0x8000_0000 stale
      ((refl, refl), ((refl, refl), tt)) ((λ h. absurd (omega arith)), ((λ h. omega arith), tt))
      (omega arith) (omega arith)

-- The request of `init` takes the first 42 words, before its end tag.
init_request-index : (init_request (replicate 64 7) >>= λ r. done r.index) ≡ done 42
unfolding init_request new encode int encode_request add_placeholders
init_request-index = refl

abbrev first_poll : List ℕ × ℕ
first_poll = (0x8000_0000 ∷ [], 0)

abbrev later_polls : List (List ℕ × ℕ)
later_polls = (0x4000_0000 ∷ [], 0) ∷ ([], 0) ∷ []

-- Messages on channels 1 and 8.
other_channel : Message.channel 0x3001 ≡ some frame_buffer
unfolding Message.channel
other_channel = refl

own_channel : Message.channel 0x3008 ≡ some tags_arm_to_vc
unfolding Message.channel
own_channel = refl

own_payload : Message.payload 0x3008 ≡ 0x3000
unfolding Message.payload
own_payload = refl

abbrev all_done : ℕ → ℕ
all_done _ = 0x8000_0000

abbrev mailbox_base : ℕ
mailbox_base = hhdm_physical_offset + 0xFE00_B880

call_answered_example :
    call mailbox_base all_done (hhdm_physical_offset + 0x3000) tags_arm_to_vc (record {
      statuses = polls (first_poll ∷ later_polls);
      messages = (0x3001 ∷ []) ++ 0x3008 ∷ [];
      sent = [];
    })
    ≡ (
      if bit_and (all_done (hhdm_physical_offset + 0x3000)) 0x8000_0000 == 0x8000_0000
          then ok_response (hhdm_physical_offset + 0x3000)
          else failed,
      [] ++ (0x3000 + number tags_arm_to_vc) ∷ [],
    )
call_answered_example =
    call_answered mailbox_base all_done 0x3000 tags_arm_to_vc first_poll later_polls (0x3001 ∷ [])
      0x3008 [] [] (refl, omega arith, omega arith) (omega arith) refl ((refl, tt), omega arith)
      (((refl, tt), omega arith), ((tt, omega arith), tt))
      ((frame_buffer, other_channel, inl (omega arith)), tt) (omega arith) own_payload own_channel
