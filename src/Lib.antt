-- ===== src/Lib.antt =====
-- A model of fiendhook, a client plugin for Team Fortress 2 (src/), with the theorems that make its
-- parts correct. The plugin is loaded into the game, finds addresses in the game's modules, and
-- attaches hooks to them.
--
-- How the parts interact. `init_offsets` (src/offsets/offsets.cpp) asks the dynamic linker for the
-- modules. For each it reads the ELF file (src/util/loaded_module.cpp) and the process's own memory:
-- the .eh_frame section (src/offsets/eh_frame.cpp, through src/util/data_view.hpp and
-- src/util/leb128.hpp) gives the ranges of functions, which a bit set keeps
-- (src/util/data_range_checker.hpp), and the relocations give the typeinfos, from which
-- src/offsets/rtti.cpp finds the vtables. These are coroutines (src/util/generator.hpp). Then each
-- offset caches its address. src/offsets/clientclasses.cpp does the like for the properties of the
-- client's classes. The modules of src/modules hook what was found, through src/hook; the plugin
-- (src/plugin.cpp) makes them when it is loaded and destroys them when it is unloaded.
--
-- Which file models which part:
--   Base           words, memory, texts, results; shared by all files
--   Leb128         src/util/leb128.hpp: decodeULEB128, decodeSLEB128
--   DataView       src/util/data_view.hpp: the methods of DataView, with the pointer passed on
--   Generator      src/util/generator.hpp: promise_type and Cursor, over the tree of a coroutine
--   RangeChecker   src/util/data_range_checker.hpp: DataRange and DataRangeChecker
--   EhFrame        src/offsets/eh_frame.cpp; handle_cie is in EhFrame/Cie
--   LoadedModule   src/util/loaded_module.cpp and .hpp
--   Rtti           src/offsets/rtti.cpp: Relocations, Candidates (locate_vftables), Vtables
--   Offsets        src/offsets/offsets.cpp and .hpp; init_offsets is in Offsets/Init, and the constants
--                  in Offsets/Constants
--   Nav            src/modules/nav_workshop_fix.cpp
--   ClientClasses  src/offsets/clientclasses.cpp and .hpp, with src/sdk/concommandwrapper.hpp
--   Interceptor    src/hook/gum/interceptor.cpp and .hpp, as the calls of frida-gum
--   Hooks          src/hook/hook.hpp: the hooks, over the interceptor; Hooks/Context has the arguments of
--                  an invocation, and Hooks/Objects the listeners as objects that exist or not, with
--                  src/hook/gum/objectwrapper.hpp; Hooks/Phases has the calls of other threads while
--                  a hook is made or destroyed
--   Modules        src/modules/modules.hpp and .cpp, and what each module hooks (Registered)
--   Interfaces     src/interfaces.cpp
--   Plugin         src/plugin.cpp: Load and Unload, with the order of what is set up; the callbacks of
--                  the engine are in Plugin/Callbacks
--   Overlay        src/modules/gfxoverlay.cpp and .hpp, as the calls of SDL, ImGui and OpenGL
--   PartyChat      src/modules/partychat.cpp
--   CleaverBug     src/modules/cleaverbug.cpp: the boxes that the hook draws
--   MediGuns       src/modules/mediguns.cpp: what the hook prints
--   UnhideCvars    src/modules/unhidecvars.cpp: the flags that the command clears, and src/sdk/ccvar.hpp
--   Mmap           src/util/mmap.hpp and .cpp, as the calls of the system
--   Notification   src/modules/notification.cpp: what the command does
--   Hexdump        src/util/hexdump.hpp
--   Profiler       src/modules/profiler.cpp: the replaced telemetry functions in one thread, and in
--                  Profiler/Threads in many; the texts are in Profiler/Messages, and what is attached to
--                  the game in Profiler/Attached
--   Telemetry      src/modules/telemetrystubs.hpp: the table of stubs, and in Telemetry/Enumerations the
--                  enumerations
--   Patcher        src/hook/gum/x86patcher.cpp and .hpp
-- The proofs about a part are in its child modules, and the runs on concrete inputs in Runs.
--
-- The process has 32 bits. Memory is a function from addresses to bytes, undefined where nothing is
-- mapped: a read there ends the process (the error `fault`). A thrown exception is an error value. A
-- shift that C++ leaves undefined, or a store beyond an array, is the error `undefined`.
--
-- Loops run on fuel, and running out of it is the result `stuck`, which is no C++ result. The LEB128
-- loops have eleven rounds, since the twelfth would shift by more than 64 bits; the loop over the
-- records of .eh_frame has two rounds more than there are bytes in the section; the search for the
-- end of a string has one for each address. The loop over the words of a section has one for each four
-- bytes and one more.
--
-- Given, and not modelled: ELFIO, dlopen and dlsym, dl_iterate_phdr, basename, boost's unhex, the sort of
-- range-v3, frida-gum, Tracy, SDL, ImGui, OpenGL, the system's calls on files, the functions of the Source
-- SDK and its file system. Not modelled: the font, which is data, printing, timing, and positions on the
-- screen. Tasks of the scheduler run one after the other; Offsets/Init/Tasks has them write in any
-- order.
pub mod Base
pub mod Leb128
pub mod DataView
pub mod Generator
pub mod RangeChecker
pub mod EhFrame
pub mod LoadedModule
pub mod Rtti
pub mod Offsets
pub mod Nav
pub mod ClientClasses
pub mod Interceptor
pub mod Hooks
pub mod Modules
pub mod Interfaces
pub mod Plugin
pub mod Overlay
pub mod PartyChat
pub mod MediGuns
pub mod CleaverBug
pub mod Notification
pub mod Hexdump
pub mod UnhideCvars
pub mod Mmap
pub mod Profiler
pub mod Telemetry
pub mod Patcher
