-- ===== src/Provisioners/Unattended.antt =====
-- src/cert_publisher/provisioners/winrm.py, lines 85 to 191: the PowerShell host of every runspace, which refuses
-- whatever needs a human. The calls that need none keep pypsrp's own answers and are not named here.
use cert_publisher.Prelude.{ℕ, String, Bool, false, ◌∷◌, [], ◌==◌, if◌then◌else◌}
use cert_publisher.Prelude.Text.{concat}
use cert_publisher.Effects.{runtime_error, Exception}

-- `_refuse_interactive`
unfoldable pub refuse_interactive : String → Exception
refuse_interactive what = record {
  kind = runtime_error;
  text = concat (
      "the remote script tried to " ∷ what
      ∷ ", but cert-publisher runs unattended and cannot answer prompts; make the script non-interactive -- no mandatory parameters without values, Read-Host, Get-Credential, or nested prompts"
      ∷ []);
}

-- The host calls that ask for a human, with their captions and messages.
pub data HostCall : Type 0 where
  read_line read_line_as_secure_string : HostCall
  prompt : String → String → HostCall
  prompt_for_credential1 : String → String → String → String → HostCall
  prompt_for_credential2 : String → String → String → String → ℕ → ℕ → HostCall
  prompt_for_choice : String → String → ℕ → HostCall
  read_key : ℕ → HostCall
  enter_nested_prompt : HostCall

-- `caption or message`
or_else : String → String → String
or_else caption message = if caption == "" then message else caption

-- How `_UnattendedUI`, `_UnattendedRawUI` and `_UnattendedHost` answer: each raises. `repr` is Python's.
unfoldable pub answer : (String → String) → HostCall → Exception
unfolding refuse_interactive or_else
answer repr read_line = refuse_interactive "read a line of input"
answer repr read_line_as_secure_string = refuse_interactive "read a password"
answer repr (prompt caption message) =
    refuse_interactive (concat ("prompt for input (" ∷ repr (or_else caption message) ∷ ")" ∷ []))
answer repr (prompt_for_credential1 c m u t) = refuse_interactive "prompt for credentials"
answer repr (prompt_for_credential2 c m u t a o) = refuse_interactive "prompt for credentials"
answer repr (prompt_for_choice caption message default_choice) =
    refuse_interactive
      (concat ("prompt for a choice (" ∷ repr (or_else caption message) ∷ ")" ∷ []))
answer repr (read_key options) = refuse_interactive "read a keypress"
answer repr enter_nested_prompt = refuse_interactive "enter a nested prompt"

pub record CultureInfo : Type 0 where
  pub lcid : ℕ
  pub name : String
  pub display_name : String
  pub ietf_language_tag : String
  pub three_letter_iso_name : String
  pub three_letter_windows_name : String
  pub two_letter_iso_language_name : String

pub record Size : Type 0 where
  pub width : ℕ
  pub height : ℕ

pub record Coordinates : Type 0 where
  pub x : ℕ
  pub y : ℕ

pub data Color : Type 0 where
  gray black : Color

pub record RawUi : Type 0 where
  pub window_title : String
  pub cursor_size : ℕ
  pub foreground_color : Color
  pub background_color : Color
  pub cursor_position : Coordinates
  pub window_position : Coordinates
  pub buffer_size : Size
  pub max_physical_window_size : Size
  pub max_window_size : Size
  pub window_size : Size

pub record PsHost : Type 0 where
  pub current_culture : CultureInfo
  pub current_ui_culture : CultureInfo
  pub debugger_enabled : Bool
  pub name : String
  pub raw_ui : RawUi
  pub version : String

abbrev culture : CultureInfo
culture = record {
  lcid = 1033;
  name = "en-US";
  display_name = "English (United States)";
  ietf_language_tag = "en-US";
  three_letter_iso_name = "eng";
  three_letter_windows_name = "ENU";
  two_letter_iso_language_name = "en";
}

abbrev size : Size
size = record { width = 120; height = 3000 }

abbrev origin : Coordinates
origin = record { x = 0; y = 0 }

-- `_unattended_host()`
unfoldable pub unattended_host : PsHost
unattended_host = record {
  current_culture = culture;
  current_ui_culture = culture;
  debugger_enabled = false;
  name = "cert-publisher";
  raw_ui = record {
    window_title = "cert-publisher";
    cursor_size = 25;
    foreground_color = gray;
    background_color = black;
    cursor_position = origin;
    window_position = origin;
    buffer_size = size;
    max_physical_window_size = size;
    max_window_size = size;
    window_size = size;
  };
  version = "1.0.0";
}
