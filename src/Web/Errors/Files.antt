-- ===== src/Web/Errors/Files.antt =====
-- The files behind the two handlers of src/main.cpp: logErrorToConsoleAndFile and readFileToString
-- of src/helpers.hpp, and the handlers with both. The file system is a parameter; what is printed to
-- std::cerr is kept beside its state.
use bartimaeus_app.Base.{ℕ, List, [], ◌∷◌, ◌++◌, Option, none, some}
use bartimaeus_app.Base.Bytes.{Bytes, bytes}
use bartimaeus_app.Web.Http.{Request, Response}
use bartimaeus_app.Web.Errors.{
  generate_error_tracking_id, log_line, error_details, error_handler, exception_handler,
}

-- `none` for a file that cannot be opened.
pub record Files (F : Type 0) : Type 0 where
  pub read : Bytes → F → Option Bytes
  pub append : Bytes → Bytes → F → Option F

pub record Output (F : Type 0) : Type 0 where
  pub files : F
  pub console : List Bytes

-- The line for a request.
abbrev pub error_line : List ℕ → Bytes → Request → Option ℕ → Bytes → Bytes
error_line digits time_str req status details =
    log_line time_str (generate_error_tracking_id digits) status req.path req.method details

-- The text of a std::exception, and what stands for a null pointer.
abbrev pub message_of : Option Bytes → Bytes
message_of none = bytes "Unknown Exception"
message_of (some what) = what

module _ {F : Type 0} (fs : Files F) where
  unfoldable pub read_file_to_string : Bytes → F → Bytes
  read_file_to_string path files = elim (fs.read path files) [ none ↦ [] | some text ↦ text ]

  abbrev warning : Bytes
  warning = bytes "[Warning] Failed to open error.log for writing.\n"

  -- The line goes to the console, then to the end of the file.
  unfoldable pub log_error_to_console_and_file : Bytes → Output F → Output F
  log_error_to_console_and_file log_msg out =
      elim (fs.append (bytes "error.log") log_msg out.files) [
        | none ↦ record out { console = out.console ++ log_msg ∷ warning ∷ [] }
        | some files ↦ record { files = files; console = out.console ++ log_msg ∷ [] }
      ]

  abbrev pub page : F → Bytes
  page = read_file_to_string (bytes "./public/error.html")

  -- The response beside what was printed and written.
  abbrev pub beside : Output F → Option (Bytes × Response) → Option (Response × Output F)
  beside out none = none
  beside out (some (line, res)) = some (res, out)

  module _ (digits : List ℕ) (time_str : Bytes) (req : Request) where
    -- svr.set_error_handler: the line is logged first, then the template is read.
    unfoldable pub handle_error : Response → Output F → Option (Response × Output F)
    unfolding log_error_to_console_and_file read_file_to_string
    handle_error res out =
        let out' =
          log_error_to_console_and_file
            (error_line digits time_str req res.status
              (error_details [] digits time_str req res.status))
            out in
        beside out' (error_handler (page out'.files) digits time_str req res)

    -- svr.set_exception_handler
    unfoldable pub handle_exception :
        Option Bytes → Response → Output F → Option (Response × Output F)
    unfolding log_error_to_console_and_file read_file_to_string
    handle_exception what res out =
        let out' =
          log_error_to_console_and_file
            (error_line digits time_str req (some 500) (message_of what)) out in
        beside out' (exception_handler (page out'.files) digits time_str req what res)
