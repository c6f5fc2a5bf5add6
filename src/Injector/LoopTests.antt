-- ===== src/Injector/LoopTests.antt =====
-- A concrete session of the loop of LptToUsbAdapter/LptPatchInjector/LptPatchInjector.c.
use lpt_to_usb_adapter.Base.{
  ℕ, ◌≡◌, refl, true, false, Option, none, some, List, [], ◌∷◌, ◌++◌, length, replicate,
}
use lpt_to_usb_adapter.Usb.Api.{Api, Host, M}
use lpt_to_usb_adapter.UsbLpt.Commands.{UsbLpt}
use lpt_to_usb_adapter.Injectee.Ports.{Outcome}
use lpt_to_usb_adapter.Injector.Debuggee.{Debuggee, Settings, Workers}
use lpt_to_usb_adapter.Injector.Modules.{ModuleApi}
use lpt_to_usb_adapter.Injector.Loop.{
  DebugEvent, Debugger, create_process, load_dll, exception, exit_process,
}
use lpt_to_usb_adapter.Injector.Startup.{StartSettings, StartApi, mode_of_setting, start_program}
use lpt_to_usb_adapter.Injector.Session.{Answer, Session}

abbrev cable : Api Session
cable = record {
  malloc = λ n w. (true, w);
  heap_flag = λ w. false;
  stack_byte = λ w. 0;
  create_file = λ path w. (some 7, w);
  winusb_initialize = λ h w. (some 8, w);
  winusb_free = λ h w. w;
  close_handle = λ h w. w;
  control_out = λ h rq bytes w. (some 0, w);
  control_in = λ h rq n w. (some (replicate n 0), w);
  write_pipe = λ h pipe bytes w. (none, w);
  read_pipe = λ h pipe n w. (none, w);
}

-- Every thread stands at OUT DX, AL with the port's control register in DX.
abbrev stopped : ℕ → Debuggee Session
stopped thread = record {
  read_process_memory = λ a n w. (some (0xee ∷ replicate 15 0x90), w);
  write_process_memory = λ a bytes w. (some (length bytes), w);
  virtual_alloc_ex = λ n w. (some 0x10000, w);
  get_thread_context = λ w. (some (record { eax = 1; edx = 0x37a; eip = 0x401000 }), w);
  set_thread_context = λ c w. (true, w);
}

abbrev next_event : List DebugEvent → List Answer → Option DebugEvent × Session
next_event [] answers = (none, record { events = []; answers = answers })
next_event (e ∷ es) answers = (some e, record { events = es; answers = answers })

abbrev debugger : Debugger Session
debugger = record {
  wait_for_debug_event = λ w. next_event w.events w.answers;
  continue_debug_event =
      λ process thread type w. record w { answers = w.answers ++ (process, thread, type) ∷ [] };
  open_thread = λ thread w. w;
}

abbrev modules : ModuleApi Session
modules = record {
  load_library = λ name w. (none, w);
  get_proc_address = λ h name w. (none, w);
  free_library = λ h w. w;
  modules_size = λ w. (none, w);
  enum_process_modules = λ n w. (none, w);
  module_file_name = λ h w. (none, w);
  file_name = λ path. path;
}

-- A start, a library, a port instruction, a fault of another kind, and the exit.
abbrev events : List DebugEvent
events =
    record { process_id = 1; thread_id = 2; info = create_process 50 }
    ∷ record { process_id = 1; thread_id = 2; info = load_dll 51 }
    ∷ record { process_id = 1; thread_id = 3; info = exception 0xc0000096 0x401000 }
    ∷ record { process_id = 1; thread_id = 2; info = exception 0xc0000005 0x401001 }
    ∷ record { process_id = 1; thread_id = 2; info = exit_process }
    ∷ []

abbrev start : Host Session
start = record {
  world = record { events = events; answers = [] };
  allocated = 0;
  freed = 0;
  opened = 0;
  closed = 0;
  initialized = 0;
  released = 0;
}

abbrev settings : Settings
settings = record { use_mempatch = false; bypass_ports = []; base_address = 0x378 }

abbrev lpt : UsbLpt
lpt = record {
  usb_handles = record { dev_handle = 7; dev_winusb_handle = 8 };
  version = replicate 40 0;
  no_special_endpoint = true;
}

abbrev workers : Workers
workers = record { out_byte_fn = []; in_byte_fn = []; write_port8 = 0; read_port8 = 0 }

abbrev desktop : StartApi Session
desktop = record {
  message_box = λ w. w;
  path_file_exists = λ path w. (true, w);
  create_process_with_dll = λ path dll w. (some (60, 61), w);
}

-- The setting names the mode "Ps/2", which the adapter takes.
abbrev ps2 : StartSettings
ps2 = record {
  settings = settings;
  mode = b'P' ∷ b's' ∷ b'/' ∷ b'2' ∷ [];
  application_path = b'a' ∷ [];
}

no_ecp : mode_of_setting (b'E' ∷ b'C' ∷ b'P' ∷ []) ≡ none
unfolding mode_of_setting
no_ecp = refl

epp_in_small : mode_of_setting (b'e' ∷ b'p' ∷ b'p' ∷ []) ≡ some 2
unfolding mode_of_setting
epp_in_small = refl

abbrev opening : M Session (Option (Option UsbLpt))
opening s = (some (some lpt), s)

abbrev desktop_start : ℕ → StartSettings → UsbLpt → M Session (Option (Outcome (Unit {0})))
desktop_start =
    start_program cable desktop modules debugger (λ process. stopped) (λ bytes limit. 1) opening []
      workers
