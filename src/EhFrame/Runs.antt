-- ===== src/EhFrame/Runs.antt =====
-- Runs of src/offsets/eh_frame.cpp.
use clientplugin.Base.{refl, none, some, arith, Memory, IsUserSpace, ◌==◌, if◌then◌else◌}
use clientplugin.EhFrame.{handle_eh_frame}
use clientplugin.Generator.Finishes.{Finishes}
use clientplugin.EhFrame.Termination.{handle_eh_frame-Finishes}

-- A section of 12 bytes at 4096: a CIE of eight bytes, behind which the section ends.
abbrev section_at : Memory
section_at a =
    if a == 4096
    then some 8
    else if a == 4097
    then some 0
    else if a == 4098
    then some 0
    else if a == 4099
    then some 0
    else if a == 4100
    then some 0
    else if a == 4101
    then some 0
    else if a == 4102
    then some 0
    else if a == 4103
    then some 0
    else none

section_at-IsUserSpace : IsUserSpace section_at
section_at-IsUserSpace = record { null_page = refl; kernel_space = refl }

handle_eh_frame-Finishes_example : Finishes (handle_eh_frame section_at 4096 4108)
handle_eh_frame-Finishes_example =
    handle_eh_frame-Finishes section_at-IsUserSpace 4096 4108 (omega arith)
