-- ===== src/Expression.antt =====
-- sqlcore/dictionary: the data types of columns and expressions, and their operators.
pub mod DataTypes
pub mod Operators
pub mod Qual
pub mod Tests
