-- ===== src/Notifications/Tests.antt =====
-- The theorems on the notification queue at a queue of two notifications.
use socketapi.Prelude.{◌≡◌, ◌⊎◌, refl, true, some, none, [], ◌∷◌, ◌++◌, arith, All}
use socketapi.Notifications.{
  data_arrive, assoc_change, Notification, Heap, Queue, empty_queue, add_notification,
  get_notification, drop_notification, flush, set_cell,
}
use socketapi.Notifications.Represents.{Entries, Represents}
use socketapi.Notifications.Loops.{is_cell, flush-Represents}
use socketapi.Notifications.Fifo.{Run, start, add, take_first, notes_back, Run-Fifo}

abbrev data_note : Notification
data_note = record {
  remote_port = 9;
  remote_addresses = [];
  content_position = 0;
  sn_type = 8;
  sn_assoc_id = 3;
  content = data_arrive 0 1 0 0;
}

abbrev change_note : Notification
change_note = record {
  remote_port = 9;
  remote_addresses = [];
  content_position = 0;
  sn_type = 1;
  sn_assoc_id = 3;
  content = assoc_change 11 1 1;
}

abbrev no_cells : Heap
no_cells a = none

abbrev two_entries : Entries
two_entries = (10, change_note) ∷ (20, data_note) ∷ []

abbrev two_notes : Queue
two_notes = record {
  heap =
      set_cell (set_cell no_cells 10 (some (record { note = change_note; next = some 20 }))) 20
        (some (record { note = data_note; next = none }));
  first = some 10;
  last = some 20;
  count = 2;
  updated = true;
}

two_notes-Represents : Represents two_notes two_entries
unfolding set_cell
two_notes-Represents = record {
  linked = (refl, (refl, tt));
  distinct = ((λ e. omega arith, tt), (tt, tt));
  first_entry = refl;
  last_entry = refl;
  counted = refl;
}

free_cell : two_notes.heap 30 ≡ none
unfolding set_cell
free_cell = refl

flush-Represents_example :
    (p : Queue) × (flush 2 two_notes ≡ some p)
    × Represents p []
    × All (λ e. p.heap e.0 ≡ none) two_entries
    × ((is_cell 30 two_entries ≡ true) ⊎ (p.heap 30 ≡ two_notes.heap 30))
flush-Represents_example =
    flush-Represents 2 two_notes two_entries 30 two_notes-Represents (omega arith)

-- Two notifications are added and one is taken out.
abbrev one_left : Queue
one_left =
    drop_notification
      (add_notification (some 20) data_note
        (add_notification (some 10) change_note (empty_queue no_cells)).0).0

one_left-Run : Run no_cells (data_note ∷ change_note ∷ []) (change_note ∷ []) one_left
unfolding get_notification add_notification empty_queue set_cell
one_left-Run = take_first (add (add start 10 change_note refl) 20 data_note refl) change_note refl

Run-Fifo_example :
    (es : Entries) × Represents one_left es
    × (data_note ∷ change_note ∷ [] ≡ notes_back es ++ change_note ∷ [])
Run-Fifo_example =
    Run-Fifo no_cells (data_note ∷ change_note ∷ []) (change_note ∷ []) one_left one_left-Run
