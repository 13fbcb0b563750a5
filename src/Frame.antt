-- ===== src/Frame.antt =====
-- frame.rs: STOMP frames and their builder methods.
use iridium_stomp.Base.{List, [], ◌∷◌, ◌++◌, Option, none, some, if◌then◌else◌, length}
use iridium_stomp.Base.Text.Utf8.{Bytes, codes}
use iridium_stomp.Base.Text.Decimal.{to_string}
use iridium_stomp.Base.Text.Ascii.{eq_ignore_ascii_case}

abbrev pub Header : Type 0
Header = Bytes × Bytes

pub record Frame : Type 0 where
  pub command : Bytes
  pub headers : List Header
  pub body : Bytes

-- `Frame::new`
abbrev pub new : Bytes → Frame
new command = record { command = command; headers = []; body = [] }

abbrev pub header : Frame → Bytes → Bytes → Frame
header f key value = record f { headers = f.headers ++ (key, value) ∷ [] }

abbrev pub set_body : Frame → Bytes → Frame
set_body f body = record f { body = body }

abbrev pub receipt : Frame → Bytes → Frame
receipt f id = header f (codes "receipt") id

-- `find_map` over the headers, by name.
unfoldable pub find_header : Bytes → List Header → Option Bytes
find_header key [] = none
find_header key ((name, value) ∷ hs) =
    if eq_ignore_ascii_case name key then some value else find_header key hs

unfoldable pub get_header : Frame → Bytes → Option Bytes
unfolding find_header
get_header f key = find_header key f.headers

unfoldable pub display_headers : List Header → Bytes
display_headers [] = []
display_headers ((k, v) ∷ hs) = k ++ (codes ": " ++ (v ++ (b'\n' ∷ display_headers hs)))

-- `Display`
unfoldable pub frame_text : Frame → Bytes
unfolding display_headers
frame_text f =
    codes "Command: "
    ++ (f.command
        ++ (b'\n'
            ∷ (display_headers f.headers
                ++ (codes "Body (" ++ (to_string (length f.body) ++ codes " bytes)\n")))))
