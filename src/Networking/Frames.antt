-- ===== src/Networking/Frames.antt =====
-- src/networking.c: the frames in a read buffer.
use mathlib.Core.List.{append_assoc}
use bytekv.Prelude.{
  ◌+◌, ◌≤◌, ◌<◌, ◌≡◌, refl, ◌∙◌, ap, ◌⊎◌, List, [], ◌∷◌, ◌++◌, arith, length, take, drop,
  length-append, take-append, drop-append, drop-add,
}
use bytekv.Prelude.Bytes.{Bytes, slice, be, be_value, be_value-be, length-be}
use bytekv.Aof.{msg_max}
use bytekv.Networking.{frame_hdr_size, frame}

-- the frames of some payloads, one after the other
unfoldable pub frames : List Bytes → Bytes
frames [] = []
frames (p ∷ ps) = frame p ++ frames ps

-- a payload that the server accepts
abbrev pub IsMessage : Bytes → Type 0
IsMessage p = length p ≤ msg_max

-- the beginning of a frame, not all of which has come
abbrev pub IsPart : Bytes → Type 0
IsPart rest =
    (length rest < frame_hdr_size)
    ⊎ ((be_value (take frame_hdr_size rest) ≤ msg_max)
        × (length rest < frame_hdr_size + be_value (take frame_hdr_size rest)))

-- what the loop reads where a frame begins the buffer
pub record Begins (p more buf : Bytes) : Type 0 where
  pub len : be_value (take frame_hdr_size buf) ≡ length p
  pub payload : slice frame_hdr_size (length p) buf ≡ p
  pub next : drop (frame_hdr_size + length p) buf ≡ more
  pub whole : length buf ≡ frame_hdr_size + length p + length more

pub frame-Begins : (p more : Bytes) → IsMessage p → Begins p more (frame p ++ more)
frame-Begins p more h =
    let hdr = be frame_hdr_size (length p) in
    let hdr_size : length hdr ≡ frame_hdr_size = length-be frame_hdr_size (length p) in
    let value : be_value hdr ≡ length p =
      be_value-be frame_hdr_size (length p) (omega (arith, h)) in
    let behind : drop frame_hdr_size (hdr ++ (p ++ more)) ≡ p ++ more =
      drop-append frame_hdr_size hdr (p ++ more) hdr_size in
    rw (append_assoc hdr p more) (record {
      len = ap be_value (take-append frame_hdr_size hdr (p ++ more) hdr_size) ∙ value;
      payload = ap (take (length p)) behind ∙ take-append (length p) p more refl;
      next =
          drop-add frame_hdr_size (length p) (hdr ++ (p ++ more))
          ∙ ap (drop (length p)) behind
          ∙ drop-append (length p) p more refl;
      whole = omega (arith, hdr_size, length-append hdr (p ++ more), length-append p more);
    })
