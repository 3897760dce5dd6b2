-- ===== src/Console/Marks.antt =====
-- What the selection's functions leave alone.
use os_ca.Common.{ℕ, ◌≡◌, Bool, false, minus_one, arith, ◌⊎◌}
use os_ca.Console.State.{Console}
use os_ca.Console.Select.{update_highlight, clear_selection, deselect_if_any}
use os_ca.Console.Line.{text}

-- Highlighting changes the display's cells alone.
pub update_highlight-same :
    (a b : ℕ) (on : Bool) (s : Console)
    → (text (update_highlight a b on s) ≡ text s)
      × ((update_highlight a b on s).undo ≡ s.undo)
      × ((update_highlight a b on s).sel_start ≡ s.sel_start)
      × ((update_highlight a b on s).sel_end ≡ s.sel_end)
unfolding update_highlight
update_highlight-same a b on s = ground arith

pub text-clear_selection : (s : Console) → text (clear_selection s) ≡ text s
unfolding clear_selection
text-clear_selection s = ground (arith, update_highlight-same s.sel_start s.sel_end false s)

pub undo-clear_selection : (s : Console) → (clear_selection s).undo ≡ s.undo
unfolding clear_selection
undo-clear_selection s = ground (arith, update_highlight-same s.sel_start s.sel_end false s)

pub text-deselect_if_any : (s : Console) → text (deselect_if_any s) ≡ text s
unfolding deselect_if_any
text-deselect_if_any s = ground (arith, text-clear_selection s)

pub undo-deselect_if_any : (s : Console) → (deselect_if_any s).undo ≡ s.undo
unfolding deselect_if_any
undo-deselect_if_any s = ground (arith, undo-clear_selection s)

-- Behind `clear_selection` nothing is selected, and no end is a new one but -1.
pub sel-clear_selection :
    (s : Console)
    → ((clear_selection s).sel_start ≡ minus_one)
      × (((clear_selection s).sel_end ≡ minus_one) ⊎ ((clear_selection s).sel_end ≡ s.sel_end))
unfolding clear_selection
sel-clear_selection s = ground arith
