-- ===== src/Message.antt =====
-- src/kernel/message.hpp: the messages that tasks receive. The union of arguments is a sum here: a
-- message carries the member that its type stands for.
use mikanos.Prelude.{ℕ, List}
use mikanos.Prelude.Int.{ℤ}

pub data LayerOperation : Type 0 where
  move move_relative draw draw_area : LayerOperation

pub data MessageArg : Type 0 where
  interrupt_xhci : MessageArg
  timer_timeout : (timeout : ℕ) (value : ℤ) → MessageArg
  key_push : (modifier keycode ascii : ℕ) (press : ℤ) → MessageArg
  layer : (op : LayerOperation) (layer_id : ℕ) (x y w h : ℤ) → MessageArg
  layer_finish : MessageArg
  mouse_move : (x y dx dy : ℤ) (buttons : ℕ) → MessageArg
  mouse_button : (x y press button : ℤ) → MessageArg
  window_active : (activate : ℤ) → MessageArg
  pipe : (bytes : List ℕ) (len : ℕ) → MessageArg
  window_close : (layer_id : ℕ) → MessageArg

pub record Message : Type 0 where
  pub src_task : ℕ
  pub arg : MessageArg
